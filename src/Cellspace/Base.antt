-- ===== src/Cellspace/Base.antt =====
-- The base image's seed and the reset to it.
use froth.Base.{
  ℕ, ◌<◌, ◌≡◌, refl, List, [], ◌∷◌, Bool, true, false, arith, get_or, take, length-take,
  get_or-take, get_or-write_inside, ◌∙◌, ap,
}
use froth.Base.Int.{ℤ, pos, to_u32}
use froth.Cellspace.{
  Cellspace, IsValid, allot, fetch, store, capture_base_seed, reset_to_base, reset_high_water,
}
use froth.Cellspace.Bounds.{
  Op, do_allot, do_store, do_capture, do_reset, do_reset_high_water, apply, apply-IsValid,
}

abbrev pub run : List Op → Cellspace → Cellspace
run [] c = c
run (o ∷ os) c = run os (apply o c)

-- A run that takes no new seed.
abbrev pub keeps_seed : List Op → Bool
keeps_seed [] = true
keeps_seed (do_capture ∷ os) = false
keeps_seed (_ ∷ os) = keeps_seed os

pub run-IsValid : (os : List Op) (c : Cellspace) → IsValid c → IsValid (run os c)
run-IsValid [] c v = v
run-IsValid (o ∷ os) c v = run-IsValid os (apply o c) (apply-IsValid o c v)

record SameSeed (a b : Cellspace) : Type 0 where
  seed : a.base_seed ≡ b.base_seed
  mark : a.base_mark ≡ b.base_mark

SameSeed-trans : {a b c : Cellspace} → SameSeed a b → SameSeed b c → SameSeed a c
SameSeed-trans p q = record { seed = p.seed ∙ q.seed; mark = p.mark ∙ q.mark }

apply-SameSeed :
    (o : Op) (os : List Op) (c : Cellspace)
    → keeps_seed (o ∷ os) ≡ true
    → SameSeed (apply o c) c × (keeps_seed os ≡ true)
unfolding allot store reset_to_base reset_high_water
apply-SameSeed (do_allot n) os c h = (record { seed = ground arith; mark = ground arith }, h)
apply-SameSeed (do_store i z) os c h = (record { seed = ground arith; mark = ground arith }, h)
apply-SameSeed do_capture os c h = cc
apply-SameSeed do_reset os c h = (record { seed = refl; mark = refl }, h)
apply-SameSeed do_reset_high_water os c h = (record { seed = refl; mark = refl }, h)

run-SameSeed : (os : List Op) (c : Cellspace) → keeps_seed os ≡ true → SameSeed (run os c) c
run-SameSeed [] c h = record { seed = refl; mark = refl }
run-SameSeed (o ∷ os) c h =
    let step = apply-SameSeed o os c h in SameSeed-trans (run-SameSeed os (apply o c) step.1) step.0

captured :
    (c : Cellspace) (i : ℕ)
    → IsValid c
    → i < c.used
    → get_or (capture_base_seed c).base_seed i (pos 0) ≡ get_or c.cells i (pos 0)
unfolding capture_base_seed
captured c i v h = ground (
  arith,
  get_or-write_inside 0 (take c.used c.cells) c.base_seed i i (pos 0),
  length-take c.used c.cells,
  get_or-take c.used c.cells i (pos 0),
)

restored :
    (c : Cellspace) (i : ℕ)
    → IsValid c
    → i < c.base_mark
    → get_or (reset_to_base c).cells i (pos 0) ≡ get_or c.base_seed i (pos 0)
unfolding reset_to_base
restored c i v h = ground (
  arith,
  get_or-write_inside 0 (take c.base_mark c.base_seed) c.cells i i (pos 0),
  length-take c.base_mark c.base_seed,
  get_or-take c.base_mark c.base_seed i (pos 0),
)

module _ (os : List Op) (c : Cellspace) (v : IsValid c) (no_capture : keeps_seed os ≡ true) where
  abbrev based_run : Cellspace
  based_run = run os (capture_base_seed c)

  based_run-SameSeed : SameSeed based_run (capture_base_seed c)
  based_run-SameSeed = run-SameSeed os (capture_base_seed c) no_capture

  based_run-IsValid : IsValid based_run
  based_run-IsValid = run-IsValid os (capture_base_seed c) (apply-IsValid do_capture c v)

  used-reset : (reset_to_base based_run).used ≡ c.used
  unfolding reset_to_base capture_base_seed
  used-reset = based_run-SameSeed.mark

  cell-reset :
      (i : ℕ)
      → i < c.used
      → get_or (reset_to_base based_run).cells i (pos 0) ≡ get_or c.cells i (pos 0)
  cell-reset i h =
      restored based_run i based_run-IsValid
        (unfold capture_base_seed in omega (arith, based_run-SameSeed.mark))
      ∙ ap (λ (s : List ℤ). get_or s i (pos 0)) based_run-SameSeed.seed
      ∙ captured c i v h

  -- Whatever is allotted, stored or reset after the seed of a valid cell space was captured, a
  -- reset to the base gives every fetch its result at the capture.
  pub fetch-reset : (i : ℤ) → fetch (reset_to_base based_run) i ≡ fetch c i
  unfolding fetch
  fetch-reset i = ground (arith, used-reset, cell-reset (to_u32 i))
