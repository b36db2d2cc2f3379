-- ===== src/Protocol/Size.antt =====
-- common/include/Protocol.hpp: `sizeof` of each packed struct.
use game_x.Base.{ℕ}

abbrev pub header : ℕ
header = 4

abbrev pub login : ℕ
login = 68

abbrev pub redirect : ℕ
redirect = 50

abbrev pub player_move : ℕ
player_move = 5

abbrev pub game_auth : ℕ
game_auth = 32

abbrev pub game_auth_ok : ℕ
game_auth_ok = 4

abbrev pub player_state : ℕ
player_state = 20

abbrev pub player_leave : ℕ
player_leave = 4

abbrev pub chat_send : ℕ
chat_send = 33

abbrev pub chat_recv : ℕ
chat_recv = 33
