-- ===== src/Render/Device/Families.antt =====
-- client/src/VulkanRenderer.cpp: what `findQueueFamilies`, `isDeviceSuitable` and
-- `pickPhysicalDevice` promise to the functions that use their answers.
use game_x.Base.{
  ℕ, zero, suc, ◌+◌, ◌≡◌, ◌↔◌, refl, sym, ap, ◌∙◌, Bool, true, false, not, List, [], ◌∷◌, ◌++◌,
  append_assoc, Option, none, some, is_some, ◌==◌, arith, get_elem?, length, length-append, In, inl,
  inr, Bool-cases, bit_and,
}
use mathlib.Core.Option
use game_x.Render.Device.{
  PhysicalDevice, QueueFamily, QueueFamilyIndices, is_complete, note_family, scan_families,
  find_queue_families, queue_graphics_bit, is_device_suitable, is_empty, pick_physical_device,
  choose_swap_surface_format, SurfaceFormat,
}

abbrev pub draws : QueueFamily → Bool
draws f = not (bit_and f.queue_flags queue_graphics_bit == 0)

abbrev pub shows : QueueFamily → Bool
shows f = f.present_support

get_elem?-append :
    (xs : List QueueFamily) (f : QueueFamily) (ys : List QueueFamily)
    → get_elem? (xs ++ f ∷ ys) (length xs) ≡ some f
get_elem?-append [] f ys = refl
get_elem?-append (x ∷ xs) f ys = get_elem?-append xs f ys

module _ (all : List QueueFamily) where
  -- An index, where there is one, is that of a family with the quality.
  abbrev Points : (QueueFamily → Bool) → Option ℕ → Type 0
  Points p none = Unit
  Points p (some i) = (f : QueueFamily) × (get_elem? all i ≡ some f) × (p f ≡ true)

  record IsIndexed (q : QueueFamilyIndices) : Type 0 where
    graphics : Points draws q.graphics_family
    present : Points shows q.present_family

  note_family-IsIndexed :
      (f : QueueFamily) (i : ℕ) (q : QueueFamilyIndices)
      → get_elem? all i ≡ some f
      → IsIndexed q
      → IsIndexed (note_family f i q)
  unfolding note_family
  note_family-IsIndexed f i q e h = record {
    graphics = elim (Bool-cases (bit_and f.queue_flags queue_graphics_bit == 0)) [
      | inl no_bit ↦ rw no_bit h.graphics
      | inr bit ↦ rw bit (f, e, rw bit refl)
    ];
    present = elim (Bool-cases f.present_support) [
      | inl shown ↦ rw shown (f, e, shown)
      | inr hidden ↦ rw hidden h.present
    ];
  }

  scan_families-IsIndexed :
      (seen fs : List QueueFamily) (q : QueueFamilyIndices)
      → all ≡ seen ++ fs
      → IsIndexed q
      → IsIndexed (scan_families fs (length seen) q)
  unfolding scan_families
  scan_families-IsIndexed seen [] q split h = h
  scan_families-IsIndexed seen (f ∷ fs) q split h =
      let at : get_elem? all (length seen) ≡ some f =
        ap (λ xs. get_elem? xs (length seen)) split ∙ get_elem?-append seen f fs in
      let noted = note_family-IsIndexed f (length seen) q at h in
      elim (Bool-cases (is_complete (note_family f (length seen) q))) [
        | inl stop ↦ rw stop noted
        | inr go ↦
            let place : length (seen ++ f ∷ []) ≡ length seen + 1 = length-append seen (f ∷ []) in
            rw (go, ← place)
              (scan_families-IsIndexed (seen ++ f ∷ []) fs (note_family f (length seen) q)
                (split ∙ sym (append_assoc seen (f ∷ []) fs)) noted)
      ]

  find_queue_families-IsIndexed :
      (d : PhysicalDevice) → d.queue_families ≡ all → IsIndexed (find_queue_families d)
  unfolding find_queue_families
  find_queue_families-IsIndexed d e = rw e (
      scan_families-IsIndexed [] all (record { graphics_family = none; present_family = none }) refl
        (record { graphics = tt; present = tt }))

note_family_keeps :
    (f : QueueFamily) (i : ℕ) (q : QueueFamilyIndices)
    → (is_some q.graphics_family ≡ true → is_some (note_family f i q).graphics_family ≡ true)
      × (is_some q.present_family ≡ true → is_some (note_family f i q).present_family ≡ true)
      × (draws f ≡ true → is_some (note_family f i q).graphics_family ≡ true)
      × (shows f ≡ true → is_some (note_family f i q).present_family ≡ true)
unfolding note_family
note_family_keeps f i q = ground arith

scan_families_keeps :
    (fs : List QueueFamily) (i : ℕ) (q : QueueFamilyIndices)
    → (is_some q.graphics_family ≡ true → is_some (scan_families fs i q).graphics_family ≡ true)
      × (is_some q.present_family ≡ true → is_some (scan_families fs i q).present_family ≡ true)
unfolding scan_families
scan_families_keeps [] i q = (λ h. h, λ h. h)
scan_families_keeps (f ∷ fs) i q =
    ground (arith, note_family_keeps f i q, scan_families_keeps fs (i + 1) (note_family f i q))

scan_families_finds :
    (f : QueueFamily) (fs : List QueueFamily) (i : ℕ) (q : QueueFamilyIndices)
    → In f fs
    → (draws f ≡ true → is_some (scan_families fs i q).graphics_family ≡ true)
      × (shows f ≡ true → is_some (scan_families fs i q).present_family ≡ true)
unfolding scan_families is_complete
scan_families_finds f [] i q h = elim h [ ]
scan_families_finds f (g ∷ gs) i q (inl e) =
    rw e
      (ground (arith, note_family_keeps g i q, scan_families_keeps gs (i + 1) (note_family g i q)))
scan_families_finds f (g ∷ gs) i q (inr h) =
    ground (arith, scan_families_finds f gs (i + 1) (note_family g i q) h)

-- The device has a family with the quality.
abbrev pub Offers : (QueueFamily → Bool) → PhysicalDevice → Type 0
Offers p d = (f : QueueFamily) × In f d.queue_families × (p f ≡ true)

get_elem?-In : (i : ℕ) (fs : List QueueFamily) (f : QueueFamily) → get_elem? fs i ≡ some f → In f fs
get_elem?-In i [] f h = cc
get_elem?-In zero (g ∷ gs) f h = inl cc
get_elem?-In (suc i) (g ∷ gs) f h = inr (get_elem?-In i gs f h)

Points-Offers :
    (p : QueueFamily → Bool) (d : PhysicalDevice) (o : Option ℕ)
    → Points d.queue_families p o
    → is_some o ≡ true
    → Offers p d
Points-Offers p d none h t = cc
Points-Offers p d (some i) (f, e, q) t = (f, get_elem?-In i d.queue_families f e, q)

-- A device passes isComplete exactly when one of its queue families draws and one of them presents.
pub find_queue_families_complete :
    (d : PhysicalDevice)
    → (is_complete (find_queue_families d) ≡ true) ↔ (Offers draws d × Offers shows d)
unfolding find_queue_families is_complete
find_queue_families_complete d = (
  λ h.
      let ix = find_queue_families-IsIndexed d.queue_families d refl in
      (
        Points-Offers draws d (find_queue_families d).graphics_family ix.graphics (ground arith),
        Points-Offers shows d (find_queue_families d).present_family ix.present (ground arith),
      ),
  λ o.
      let ((f, f_in, f_draws), (g, g_in, g_shows)) = o in
      let blank : QueueFamilyIndices = record { graphics_family = none; present_family = none } in
      let drawing = (scan_families_finds f d.queue_families 0 blank f_in).0 f_draws in
      let showing = (scan_families_finds g d.queue_families 0 blank g_in).1 g_shows in
      rw (drawing, showing) refl,
)

choose_swap_surface_format-some :
    (fs : List SurfaceFormat) → is_empty fs ≡ false → is_some (choose_swap_surface_format fs) ≡ true
unfolding choose_swap_surface_format
choose_swap_surface_format-some [] h = cc
choose_swap_surface_format-some (f ∷ fs) h = ground arith

pick_physical_device-some :
    (ds : List PhysicalDevice) (d : PhysicalDevice)
    → pick_physical_device ds ≡ some d
    → In d ds × (is_device_suitable d ≡ true)
unfolding pick_physical_device
pick_physical_device-some [] d h = cc
pick_physical_device-some (e ∷ es) d h = elim (Bool-cases (is_device_suitable e)) [
  | inl suits ↦
      let same : e ≡ d = Option.some-injective e d (rw suits at h) in
      (inl (sym same), ap is_device_suitable (sym same) ∙ suits)
  | inr not ↦ let r = pick_physical_device-some es d (rw not at h) in (inr r.0, r.1)
]

pick_physical_device-none :
    (ds : List PhysicalDevice) (d : PhysicalDevice)
    → pick_physical_device ds ≡ none
    → In d ds
    → is_device_suitable d ≡ false
unfolding pick_physical_device
pick_physical_device-none [] d h m = elim m [ ]
pick_physical_device-none (e ∷ es) d h m = elim (Bool-cases (is_device_suitable e)) [
  | inl suits ↦ let never : some e ≡ none = rw suits at h in cc
  | inr not ↦ elim m [
    | inl same ↦ ap is_device_suitable same ∙ not
    | inr later ↦ pick_physical_device-none es d (rw not at h) later
  ]
]

-- The device that pickPhysicalDevice picks is one of the devices, has both queue families that the
-- later functions read without a test, and has a surface format to choose.
pub pick_physical_device_serves :
    (ds : List PhysicalDevice) (d : PhysicalDevice)
    → pick_physical_device ds ≡ some d
    → In d ds
      × (is_some (find_queue_families d).graphics_family ≡ true)
      × (is_some (find_queue_families d).present_family ≡ true)
      × (is_some (choose_swap_surface_format d.formats) ≡ true)
unfolding is_device_suitable is_complete
pick_physical_device_serves ds d h =
    let (member, suits) = pick_physical_device-some ds d h in
    (member, ground arith, ground arith, choose_swap_surface_format-some d.formats (ground arith))
