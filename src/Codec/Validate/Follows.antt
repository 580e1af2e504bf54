-- ===== src/Codec/Validate/Follows.antt =====
-- A check and a decoder of src/frothy_snapshot_codec.c that go over the same bytes.
use froth.Base.{ℕ, ◌+◌, ◌≡◌, refl, ap, ◌∙◌, Bool, true, false, List, arith}
use froth.Status.{Error, Result, ok}
use froth.Codec.Get.{Get, Input, carry, ◌>>=◌, ◌>>◌, beside, on_bytes, give, reject, require}
use froth.Codec.Decode.{copy_string}
use froth.Codec.Nodes.Portable.{room_of, copied, ended}
use froth.Codec.Measure.Agrees.{carry-ok, not_ok}

-- Where the check accepts, the decoder succeeds, on the same bytes, with some storage for strings,
-- and leaves what is beyond it.
pub record Follows {A B : Type 0} (v : Get (List ℕ) A) (d : Get Input B) : Type 0 where
  pub run :
      (bs rest : List ℕ) (a : A)
      → v bs ≡ ok (a, rest)
      → (n : ℕ) × (b : B) × ((room : ℕ) → d (bs, room + n) ≡ ok (b, (rest, room)))

module _ {A C D : Type 0} where
  -- The same read in both.
  pub follow_read :
      (r : Get (List ℕ) A) (f : A → Get (List ℕ) C) (g : A → Get Input D)
      → ((a : A) → Follows (f a) (g a))
      → Follows (r >>= f) (on_bytes r >>= g)
  follow_read r f g later = record {
    run = λ bs rest c e.
        let (a, mid, e1, e2) = carry-ok (r bs) f c rest e in
        let (n, b, q) = (later a).run mid rest c e2 in
        (n, b, λ room. ap (λ (x : Result (A × List ℕ)). carry (beside (room + n) x) g) e1 ∙ q room);
  }

module _ {A B C D : Type 0} where
  -- One part after another.
  pub follow_in_turn :
      {v : Get (List ℕ) A} {d : Get Input B}
      → Follows v d
      → (f : A → Get (List ℕ) C) (g : B → Get Input D) → ((a : A) (b : B) → Follows (f a) (g b))
      → Follows (v >>= f) (d >>= g)
  follow_in_turn {v = v} {d = d} first f g later = record {
    run = λ bs rest c e.
        let (a, mid, e1, e2) = carry-ok (v bs) f c rest e in
        let (n, b, q) = first.run bs mid a e1 in
        let (k, x, q') = (later a b).run mid rest c e2 in
        (
          k + n,
          x,
          λ room.
              let grouped : room + (k + n) ≡ room + k + n = omega arith in
              ap (λ (r : ℕ). carry (d (bs, r)) g) grouped
              ∙ ap (λ (r : Result (B × Input)). carry r g) (q (room + k))
              ∙ q' room,
        );
  }

module _ {A B : Type 0} where
  -- Nothing more in either.
  pub follow_give : (a : A) (b : B) → Follows (give a) (give b)
  follow_give a b = record {
    run = λ bs rest c e.
        let same : bs ≡ rest = let both : ok (a, bs) ≡ ok (c, rest) = e in cc in
        (0, b, λ room. ended b bs room ∙ ap (λ (x : List ℕ). ok (b, (x, room))) same);
  }

  pub follow_reject : (e : Error) (d : Get Input B) → Follows (reject {A = A} e) d
  follow_reject x d = record { run = λ bs rest c e. not_ok x (c, rest) e }

  -- A test that only the check makes.
  pub follow_check :
      (t : Bool) (e : Error) (v : Get (List ℕ) A) (d : Get Input B)
      → (t ≡ true → Follows v d)
      → Follows (require t e >> v) d
  follow_check true e v d follow = follow refl
  follow_check false x v d follow = record { run = λ bs rest c e. not_ok x (c, rest) e }

  -- The same, where the decoder does not depend on the test.
  pub follow_dropped :
      (t : Bool) (e : Error) {v : Get (List ℕ) A} {d : Get Input B}
      → Follows v d
      → Follows (require t e >> v) d
  follow_dropped t e follow = follow_check t e _ _ λ h. follow

  -- A test that both make.
  pub follow_both :
      (t : Bool) (e : Error) (v : Get (List ℕ) A) (d : Get Input B)
      → Follows v d
      → Follows (require t e >> v) (require t e >> d)
  follow_both true e v d follow = follow
  follow_both false x v d follow = record { run = λ bs rest c e. not_ok x (c, rest) e }

  -- A string that the decoder copies.
  pub follow_copy :
      (a : A) (name : List ℕ) (g : List ℕ → Get Input B)
      → Follows (give a) (g name)
      → Follows (give a) (copy_string name >>= g)
  follow_copy a name g later = record {
    run = λ bs rest c e.
        let (k, b, q) = later.run bs rest c e in
        (
          k + room_of name,
          b,
          λ room.
              let grouped : room + (k + room_of name) ≡ room + k + room_of name = omega arith in
              ap (λ (r : ℕ). carry (copy_string name (bs, r)) g) grouped
              ∙ ap (λ (r : Result (List ℕ × Input)). carry r g) (copied name bs (room + k))
              ∙ q room,
        );
  }

module _ {A B C : Type 0} where
  -- What is read is packed into a value.
  pub follow_packed :
      {v : Get (List ℕ) A} {d : Get Input B}
      → Follows v d
      → (g : B → C) → Follows v (d >>= λ x. give (g x))
  follow_packed follow g = record {
    run = λ bs rest c e.
        let (n, b, q) = follow.run bs rest c e in
        (n, g b, λ room. ap (λ (r : Result (B × Input)). carry r (λ x. give (g x))) (q room));
  }

required :
    (t : Bool) (x : Error) (mid rest : List ℕ) (c : Unit {0})
    → require t x mid ≡ ok (c, rest)
    → mid ≡ rest
required true x mid rest c e = let both : ok (tt, mid) ≡ ok (c, rest) = e in cc
required false x mid rest c e = not_ok x (c, rest) e

-- A number that the check tests and the decoder takes.
pub follow_last :
    (t : ℕ → Bool) (e : Error) (r : Get (List ℕ) ℕ)
    → Follows (r >>= λ x. require (t x) e) (on_bytes r)
follow_last t x r = record {
  run = λ bs rest c e.
      let (a, mid, e1, e2) = carry-ok (r bs) (λ y. require (t y) x) c rest e in
      let same : mid ≡ rest = required (t a) x mid rest c e2 in
      (
        0,
        a,
        λ room.
            ap (λ (y : Result (ℕ × List ℕ)). beside (room + 0) y) e1
            ∙ ended a mid room
            ∙ ap (λ (y : List ℕ). ok (a, (y, room))) same,
      );
}
