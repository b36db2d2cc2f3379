-- ===== src/Lib.antt =====
-- GameX (Rebel MMO): the rules that client and servers share, the login server, the game
-- server and the client with its renderer, with the theorems that make them correct.
--
-- A client sends its name and password to the login server, which issues a session token in the
-- database and answers with the address of the game server. The client shows the token there; the
-- game server consumes it, makes an entity for the player, and from then on takes input intents and
-- chat messages. Twenty times a second it moves every player by its last intent and sends every
-- player's state to every session.
--
-- Which file models what:
--   Protocol    common/include/Protocol.hpp: the opcodes, the structs (records), their packed bytes
--               (Protocol/Codec: put_X is what a sender writes, get_X what a receiver reads), the
--               strings in their fields (Protocol/Text).
--   Movement    common/include/Movement.hpp: apply_move_flags.
--   Game        server/game/src/main.cpp. Game.antt has the state: Server is the globals with the
--               sessions, Session a PlayerSession, Components what the registry holds for an entity.
--               Game/World has save_character and simulate_movement, Game/Packets what is written,
--               Game/Framing read_header and read_payload, Game/Broadcast the broadcast functions,
--               Game/Auth handle_auth, Game/Process process_packet, and Game/Step the events that
--               reach the game strand, one after the other, with game_loop_tick.
--   Login       server/login/src/main.cpp: Login/Token has generate_session_token, Login.antt the one
--               packet that a LoginSession reads and process_login_request.
--   Client      Client/Mailbox is common/include/ThreadUtility.hpp, the ThreadSafeQueue; Client/Network
--               is client/src/NetworkManager.cpp; Client/Logic is LogicThreadEntry of
--               client/src/main.cpp: handle_packet and drain for the mailbox, Client/Logic/Tick for
--               the prediction, the snapshot and the report of a tick.
--   Render      client/src/VulkanRenderer.cpp, client/include/VulkanRenderer.hpp and GraphicsConfig.hpp.
--               Render/Device has the choices (pickPhysicalDevice, findQueueFamilies, findMemoryType,
--               the formats, chooseSwapPresentMode, chooseSwapExtent), Render/Info what each vkCreate
--               call is given, Render/State the members of VulkanRenderer (Renderer) with the objects
--               alive and the driver's answers, Render/Swapchain createSwapChain to
--               recreateSwapchain, Render/Setup the rest of init, Render/Cleanup cleanup, Render/Frame
--               drawFrame and recordCommandBuffer, Render/Texture generateCheckerboardPixels,
--               Render/Input the keys and the mouse, Render/Window toggleFullscreen. Render/Ownership
--               says which member owns which object.
--   Float, Ecs, Database   what the program calls and does not contain: float arithmetic, EnTT,
--               libpqxx, as records of operations (Fpu, Registry, Database) and of the laws that
--               their documentation states (IsIeee, IsRegistry, IsDatabase). Float/Soft, Ecs/Slots and
--               Database/Tables are instances that meet the laws, and Examples runs on them.
--   Base        Boolean tests, lists and packed bytes over the native numbers.
--
-- A handler is a function from the server's state to the new state and the writes it starts; `none`
-- is undefined behaviour, a read outside of a buffer. A step of the strand is one event: this is the
-- order that asio::strand gives the handlers. The session object is alive as long as it stands in
-- `live`; its destructor is an event that may come at any point. An exception of the database is
-- `none` of its operation; a transaction that is not committed changes nothing, unless the exception
-- comes from a commit that was carried out all the same (in_doubt). Floats are 32-bit
-- patterns, and 16- and 32-bit integers have their wrap-around written out. The loops recurse
-- on a list, but for the read loop of the client, whose fuel is the length of the bytes: each round
-- takes a header of four bytes.
--
-- The renderer is a sequence of actions on its members and on the list of the objects alive. A call
-- of Vulkan that makes an object takes the driver's next answer, a failure or a handle.
-- To destroy an object that is not alive is undefined behaviour, and so is the destruction of a
-- device or an instance before what was made from it. `thrown` is an exception, with the state that
-- it leaves; `waits` is a wait for a window event that does not come. A device answers a question
-- the same way each time, mapping memory succeeds, and command buffers and descriptor sets go with
-- their pools. Ensures (Render/State/Rules) says of an action that it is defined and what holds when
-- it returns. The loops that wait for the window recurse on the events still to come.
--
-- Not modelled: the sockets and timers of Asio, threads, the log, the start and stop of the servers
-- and of the client, and the build; of the renderer, the matrices of the camera, the copies through
-- single-time command buffers, the descriptor writes, and the GLFW callbacks that forward to the
-- handlers. The model has no partial write and no failed write but the closing of the socket that
-- the code answers it with.
pub mod Base
pub mod Float
pub mod Protocol
pub mod Movement
pub mod Ecs
pub mod Database
pub mod Game
pub mod Render
pub mod Login
pub mod Client
pub mod Examples
