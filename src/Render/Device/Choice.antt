-- ===== src/Render/Device/Choice.antt =====
-- client/src/VulkanRenderer.cpp: the choices against what they choose from: `findMemoryType`,
-- `findSupportedFormat`, the swap chain's present mode, extent and image count.
use game_x.Base.{
  ℕ, zero, suc, ◌+◌, ◌-◌, ◌^◌, ◌≤◌, ◌<◌, ◌≡◌, refl, true, false, List, [], ◌∷◌, Option, none, some,
  if◌then◌else◌, arith, get_elem?, In, inl, inr, Bool-cases, Option-cases, ◌≢◌, ap, ◌∙◌, bit_and,
}
use game_x.Render.Device.{
  Extent, SurfaceCapabilities, PhysicalDevice, PresentMode, PresentModeSetting, mailbox, fifo,
  triple_buffer, vsync, fifo_relaxed, is_memory_type, scan_memory_types, find_memory_type, offers,
  is_mode, choose_swap_present_mode, choose_swap_extent, choose_image_count,
}

module _ (type_filter properties : ℕ) where
  -- The type at place `k` of `fs`, which stands at index `from + k` in the device's table, fits.
  abbrev Fits : List ℕ → ℕ → ℕ → Type 0
  Fits fs from k =
      (flags : ℕ) × (get_elem? fs k ≡ some flags)
      × (is_memory_type type_filter properties (from + k) flags ≡ true)

  abbrev Unfit : List ℕ → ℕ → ℕ → Type 0
  Unfit fs from k =
      (flags : ℕ)
      → get_elem? fs k ≡ some flags
      → is_memory_type type_filter properties (from + k) flags ≡ false

  Unfit-cons :
      (f : ℕ) (fs : List ℕ) (from : ℕ)
      → is_memory_type type_filter properties from f ≡ false
      → (k : ℕ) → ((j : ℕ) → j < k → Unfit fs (from + 1) j)
      → (j : ℕ) → j < suc k
      → Unfit (f ∷ fs) from j
  Unfit-cons f fs from no_f k rest zero l flags e =
      let same : flags ≡ f = cc in
      let place : from + 0 ≡ from = omega arith in rw (same, place) no_f
  Unfit-cons f fs from no_f k rest (suc j) l flags e =
      let place : from + suc j ≡ from + 1 + j = omega arith in
      rw place (rest j (omega arith) flags e)

  scan_memory_types-some :
      (fs : List ℕ) (from i : ℕ)
      → scan_memory_types type_filter properties fs from ≡ some i
      → (k : ℕ) × (i ≡ from + k) × Fits fs from k × ((j : ℕ) → j < k → Unfit fs from j)
  unfolding scan_memory_types
  scan_memory_types-some [] from i h = cc
  scan_memory_types-some (f ∷ fs) from i h =
      elim (Bool-cases (is_memory_type type_filter properties from f)) [
        | inl fits ↦
            let here : some from ≡ some i = rw fits at h in
            let place : from + 0 ≡ from = omega arith in
            (0, ground arith, (f, refl, rw place fits), λ j l. absurd (omega arith))
        | inr unfit ↦
            let (k, at, (flags, e, fits), least) =
              scan_memory_types-some fs (from + 1) i (rw unfit at h) in
            let place : from + suc k ≡ from + 1 + k = omega arith in
            (suc k, omega arith, (flags, e, rw place fits), Unfit-cons f fs from unfit k least)
      ]

  scan_memory_types-none :
      (fs : List ℕ) (from : ℕ)
      → scan_memory_types type_filter properties fs from ≡ none
      → (k : ℕ) → Unfit fs from k
  unfolding scan_memory_types
  scan_memory_types-none [] from h k flags e = cc
  scan_memory_types-none (f ∷ fs) from h k flags e =
      elim (Bool-cases (is_memory_type type_filter properties from f)) [
        | inl fits ↦ let here : some from ≡ none = rw fits at h in cc
        | inr unfit ↦
            Unfit-cons f fs from unfit k
              (λ j l. scan_memory_types-none fs (from + 1) (rw unfit at h) j) k (omega arith) flags
              e
      ]

-- The filter has the bit of the index, and the flags have all the properties.
abbrev pub Allows : ℕ → ℕ → ℕ → ℕ → Type 0
Allows type_filter properties i flags =
    (bit_and type_filter (2 ^ i) ≢ 0) × (bit_and flags properties ≡ properties)

is_memory_type-Allows :
    (type_filter properties i flags : ℕ)
    → is_memory_type type_filter properties i flags ≡ true
    → Allows type_filter properties i flags
unfolding is_memory_type
is_memory_type-Allows type_filter properties i flags h = (ground arith, ground arith)

Allows-is_memory_type :
    (type_filter properties i flags : ℕ)
    → is_memory_type type_filter properties i flags ≡ false
    → ¬ Allows type_filter properties i flags
unfolding is_memory_type
Allows-is_memory_type type_filter properties i flags h a =
    let (bit, all) = a in ground (arith, bit, all)

-- What `findMemoryType` promises of its answer, without the loop: an index that is allowed, and
-- none before it that is; or no index is, and it throws.
abbrev pub FirstFit : PhysicalDevice → ℕ → ℕ → Option ℕ → Type 0
FirstFit d type_filter properties none =
    (k flags : ℕ)
    → get_elem? d.memory_types k ≡ some flags
    → ¬ Allows type_filter properties k flags
FirstFit d type_filter properties (some i) =
    ((flags : ℕ) × (get_elem? d.memory_types i ≡ some flags)
      × Allows type_filter properties i flags)
    × ((k flags : ℕ)
        → k < i
        → get_elem? d.memory_types k ≡ some flags
        → ¬ Allows type_filter properties k flags)

-- findMemoryType answers with the least index of a memory type whose bit the filter has and whose
-- flags have all the properties asked for, and throws exactly where there is none.
pub find_memory_type-FirstFit :
    (d : PhysicalDevice) (type_filter properties : ℕ)
    → FirstFit d type_filter properties (find_memory_type d type_filter properties)
unfolding find_memory_type
find_memory_type-FirstFit d type_filter properties =
    let unfit : (k flags : ℕ)
        → Unfit type_filter properties d.memory_types 0 k
        → get_elem? d.memory_types k ≡ some flags
        → ¬ Allows type_filter properties k flags =
      λ k flags u there.
        Allows-is_memory_type type_filter properties k flags
          (ap (λ n. is_memory_type type_filter properties n flags) (omega arith) ∙ u flags there) in
    elim (Option-cases (scan_memory_types type_filter properties d.memory_types 0)) [
      | inl e ↦ rw e λ k flags there.
          unfit k flags (scan_memory_types-none type_filter properties d.memory_types 0 e k) there
      | inr (i, e) ↦
          let (k, at, (flags, there, fits), least) =
            scan_memory_types-some type_filter properties d.memory_types 0 i e in
          let same : i ≡ k = omega arith in
          rw e (
            rw same (
              (
                flags,
                there,
                is_memory_type-Allows type_filter properties k flags
                    (ap (λ n. is_memory_type type_filter properties n flags) (omega arith) ∙ fits),
              ),
              λ j other l found. unfit j other (least j l) found,
            ))
    ]

is_mode-eq : (m n : PresentMode) → is_mode m n ≡ true → m ≡ n
is_mode-eq PresentMode.immediate PresentMode.immediate h = refl
is_mode-eq PresentMode.immediate mailbox h = cc
is_mode-eq PresentMode.immediate fifo h = cc
is_mode-eq PresentMode.immediate fifo_relaxed h = cc
is_mode-eq mailbox PresentMode.immediate h = cc
is_mode-eq mailbox mailbox h = refl
is_mode-eq mailbox fifo h = cc
is_mode-eq mailbox fifo_relaxed h = cc
is_mode-eq fifo PresentMode.immediate h = cc
is_mode-eq fifo mailbox h = cc
is_mode-eq fifo fifo h = refl
is_mode-eq fifo fifo_relaxed h = cc
is_mode-eq fifo_relaxed PresentMode.immediate h = cc
is_mode-eq fifo_relaxed mailbox h = cc
is_mode-eq fifo_relaxed fifo h = cc
is_mode-eq fifo_relaxed fifo_relaxed h = refl

offers-true : (m : PresentMode) (ms : List PresentMode) → offers m ms ≡ true → In m ms
unfolding offers
offers-true m [] h = cc
offers-true m (n ∷ ns) h = elim (Bool-cases (is_mode m n)) [
  | inl e ↦ inl (is_mode-eq m n e)
  | inr e ↦ inr (offers-true m ns (rw e at h))
]

or_fifo :
    (m : PresentMode) (ms : List PresentMode) → In fifo ms → In (if offers m ms then m else fifo) ms
or_fifo m ms f = elim (Bool-cases (offers m ms)) [
  | inl e ↦ rw e (offers-true m ms e)
  | inr e ↦ rw e f
]

choose_swap_present_mode-In :
    (setting : PresentModeSetting) (ms : List PresentMode)
    → In fifo ms
    → In (choose_swap_present_mode setting ms) ms
unfolding choose_swap_present_mode
choose_swap_present_mode-In triple_buffer ms f = or_fifo mailbox ms f
choose_swap_present_mode-In PresentModeSetting.immediate ms f = or_fifo PresentMode.immediate ms f
choose_swap_present_mode-In vsync ms f = f

choose_swap_extent_bounds :
    (c : SurfaceCapabilities) (framebuffer : Extent)
    → c.current_extent.width ≡ 2 ^ 32 - 1
    → c.min_image_extent.width ≤ c.max_image_extent.width
    → c.min_image_extent.height ≤ c.max_image_extent.height
    → (c.min_image_extent.width ≤ (choose_swap_extent c framebuffer).width)
      × ((choose_swap_extent c framebuffer).width ≤ c.max_image_extent.width)
      × (c.min_image_extent.height ≤ (choose_swap_extent c framebuffer).height)
      × ((choose_swap_extent c framebuffer).height ≤ c.max_image_extent.height)
unfolding choose_swap_extent
choose_swap_extent_bounds c framebuffer free w h = ground arith

choose_image_count_bounds :
    (c : SurfaceCapabilities)
    → c.min_image_count + 1 < 2 ^ 32
    → (c.max_image_count ≢ 0 → c.min_image_count ≤ c.max_image_count)
    → (c.min_image_count ≤ choose_image_count c)
      × (choose_image_count c ≤ c.min_image_count + 1)
      × (c.max_image_count ≢ 0 → choose_image_count c ≤ c.max_image_count)
unfolding choose_image_count
choose_image_count_bounds c fits ordered = ground arith

-- Where the surface leaves the extent to the window, its limits are in order and its least image
-- count is below 2 ^ 32 - 1, the extent lies within the limits, and the image count is the least
-- one or one more, and within its limit if there is one.
pub swap_chain_bounds :
    (c : SurfaceCapabilities) (framebuffer : Extent)
    → c.current_extent.width ≡ 2 ^ 32 - 1
    → c.min_image_extent.width ≤ c.max_image_extent.width
    → c.min_image_extent.height ≤ c.max_image_extent.height
    → c.min_image_count + 1 < 2 ^ 32
    → (c.max_image_count ≢ 0 → c.min_image_count ≤ c.max_image_count)
    → ((c.min_image_extent.width ≤ (choose_swap_extent c framebuffer).width)
        × ((choose_swap_extent c framebuffer).width ≤ c.max_image_extent.width)
        × (c.min_image_extent.height ≤ (choose_swap_extent c framebuffer).height)
        × ((choose_swap_extent c framebuffer).height ≤ c.max_image_extent.height))
      × ((c.min_image_count ≤ choose_image_count c)
          × (choose_image_count c ≤ c.min_image_count + 1)
          × (c.max_image_count ≢ 0 → choose_image_count c ≤ c.max_image_count))
swap_chain_bounds c framebuffer free w h fits ordered =
    (choose_swap_extent_bounds c framebuffer free w h, choose_image_count_bounds c fits ordered)
