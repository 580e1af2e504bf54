-- ===== src/Codec/Measure/Agrees.antt =====
-- Two passes of src/frothy_snapshot_codec.c over the same bytes: one that adds up the storage of the
-- strings, and one that takes it.
use froth.Base.{
  ℕ, ◌+◌, ◌-◌, ◌≤◌, ◌≡◌, refl, sym, ap, ◌∙◌, Bool, true, false, List, arith, leb, ltb, length, take,
  drop, Bool-cases, inl, inr, length-take,
}
use froth.Status.{Error, Result, ok, err, heap_out_of_memory, snapshot_overflow}
use froth.Codec.Get.{
  Get, Input, carry, ◌>>=◌, ◌>>◌, beside, on_bytes, give, reject, require, read_bytes,
}
use froth.Codec.Decode.{copy_string}
use froth.Codec.Measure.{count_string}

-- Where the first pass succeeds, the second succeeds too, on the same bytes, with storage for what
-- the first has added, and leaves what is beyond it.
pub record Agrees {A B : Type 0} (m : Get Input A) (d : Get Input B) : Type 0 where
  pub run :
      (bs : List ℕ) (sum : ℕ) (a : A) (out : Input)
      → m (bs, sum) ≡ ok (a, out)
      → (sum ≤ out.1)
        × ((room : ℕ) → (b : B) × (d (bs, room + (out.1 - sum)) ≡ ok (b, (out.0, room))))

pub not_ok : {A B : Type 0} (e : Error) (a : A) → err e ≡ ok a → B
not_ok e a h = let bad : err e ≡ ok a = h in cc

pub carry-ok :
    {S A C : Type 0} (r : Result (A × S)) (f : A → Get S C) (c : C) (out : S)
    → carry r f ≡ ok (c, out)
    → (a : A) × (mid : S) × (r ≡ ok (a, mid)) × (f a mid ≡ ok (c, out))
carry-ok (ok (a, mid)) f c out e = (a, mid, refl, e)
carry-ok (err x) f c out e = not_ok x (c, out) e

beside-ok :
    {A : Type 0} (sum : ℕ) (r : Result (A × List ℕ)) (a : A) (mid : Input)
    → beside sum r ≡ ok (a, mid)
    → r ≡ ok (a, mid.0)
beside-ok {A = A} sum (ok (x, bs)) a mid e =
    let same : (x, (bs, sum)) ≡ (a, mid) = cc in ap (λ (t : A × Input). ok (t.0, t.1.0)) same
beside-ok sum (err x) a mid e = not_ok x (a, mid) e

beside-sum :
    {A : Type 0} (sum : ℕ) (r : Result (A × List ℕ)) (a : A) (mid : Input)
    → beside sum r ≡ ok (a, mid)
    → mid.1 ≡ sum
beside-sum {A = A} sum (ok (x, bs)) a mid e =
    let same : (x, (bs, sum)) ≡ (a, mid) = cc in sym (ap (λ (t : A × Input). t.1.1) same)
beside-sum sum (err x) a mid e = not_ok x (a, mid) e

module _ {A B C D : Type 0} where
  -- One part after another.
  pub agree_in_turn :
      {m : Get Input A} {d : Get Input B}
      → Agrees m d
      → (f : A → Get Input C) (g : B → Get Input D) → ((a : A) (b : B) → Agrees (f a) (g b))
      → Agrees (m >>= f) (d >>= g)
  agree_in_turn {m = m} {d = d} first f g later = record {
    run = λ bs sum c out e.
        let (a, mid, e1, e2) = carry-ok (m (bs, sum)) f c out e in
        let (up, takes) = first.run bs sum a mid e1 in
        let (b0, unused) = takes 0 in
        let (up', unused') = (later a b0).run mid.0 mid.1 c out e2 in
        (
          omega arith,
          λ room.
              let (b, q) = takes (room + (out.1 - mid.1)) in
              let (up'', takes') = (later a b).run mid.0 mid.1 c out e2 in
              let (x, q') = takes' room in
              let grouped : room + (out.1 - sum) ≡ room + (out.1 - mid.1) + (mid.1 - sum) =
                omega arith in
              (
                x,
                ap (λ (r : ℕ). carry (d (bs, r)) g) grouped
                    ∙ ap (λ (r : Result (B × Input)). carry r g) q
                    ∙ q',
              ),
        );
  }

module _ {A C D : Type 0} where
  -- The same read in both passes.
  pub agree_read :
      (r : Get (List ℕ) A) (f : A → Get Input C) (g : A → Get Input D)
      → ((bs bs' : List ℕ) (a : A) → r bs ≡ ok (a, bs') → Agrees (f a) (g a))
      → Agrees (on_bytes r >>= f) (on_bytes r >>= g)
  agree_read r f g later = record {
    run = λ bs sum c out e.
        let (a, mid, e1, e2) = carry-ok (beside sum (r bs)) f c out e in
        let read : r bs ≡ ok (a, mid.0) = beside-ok sum (r bs) a mid e1 in
        let same : mid.1 ≡ sum = beside-sum sum (r bs) a mid e1 in
        let (up, takes) = (later bs mid.0 a read).run mid.0 mid.1 c out e2 in
        (
          omega arith,
          λ room.
              let (b, q) = takes room in
              let equal : room + (out.1 - sum) ≡ room + (out.1 - mid.1) = omega arith in
              (
                b,
                ap (λ (x : Result (A × List ℕ)). carry (beside (room + (out.1 - sum)) x) g) read
                    ∙ ap (λ (n : ℕ). g a (mid.0, n)) equal
                    ∙ q,
              ),
        );
  }

module _ {A B : Type 0} where
  -- Nothing more in either pass.
  pub agree_give : (a : A) (b : B) → Agrees (give a) (give b)
  agree_give a b = record {
    run = λ bs sum c out e.
        let same : (a, (bs, sum)) ≡ (c, out) = cc in
        let sums : sum ≡ out.1 = ap (λ (t : A × Input). t.1.1) same in
        (
          omega arith,
          λ room.
              let none_taken : room + (out.1 - sum) ≡ room = omega arith in
              (
                b,
                ap (λ (n : ℕ). ok (b, (bs, n))) none_taken
                    ∙ ap (λ (t : A × Input). ok (b, (t.1.0, room))) same,
              ),
        );
  }

  pub agree_reject : (e : Error) (d : Get Input B) → Agrees (reject {A = A} e) d
  agree_reject x d = record { run = λ bs sum c out e. not_ok x (c, out) e }

module _ {C D : Type 0} where
  -- The same test in both passes.
  pub agree_require :
      (t : Bool) (e : Error) (m : Get Input C) (d : Get Input D)
      → Agrees m d
      → Agrees (require t e >> m) (require t e >> d)
  agree_require true e m d agree = agree
  agree_require false x m d agree = record { run = λ bs sum c out e. not_ok x (c, out) e }

module _ {A B C : Type 0} {m : Get Input A} {d : Get Input B} (agree : Agrees m d) where
  -- What the second pass reads is packed into a value.
  pub agree_packed : (g : B → C) → Agrees m (d >>= λ x. give (g x))
  agree_packed g = record {
    run = λ bs sum c out e.
        let (up, takes) = agree.run bs sum c out e in
        (
          up,
          λ room.
              let (b, q) = takes room in
              (g b, ap (λ (r : Result (B × Input)). carry r (λ x. give (g x))) q),
        );
  }

  -- What the first pass reads is dropped.
  pub agree_dropped : (a : C) → Agrees (m >>= λ x. give a) d
  agree_dropped v = record {
    run = λ bs sum c out e.
        let (a, mid, e1, e2) = carry-ok (m (bs, sum)) (λ x. give v) c out e in
        let same : (v, mid) ≡ (c, out) = let both : ok (v, mid) ≡ ok (c, out) = e2 in cc in
        agree.run bs sum a out (e1 ∙ ap (λ (t : C × Input). ok (a, t.1)) same);
  }

pub agree_same : {A : Type 0} (r : Get (List ℕ) A) → Agrees (on_bytes r) (on_bytes r)
agree_same {A = A} r = record {
  run = λ bs sum c out e.
      let read : r bs ≡ ok (c, out.0) = beside-ok sum (r bs) c out e in
      let same : out.1 ≡ sum = beside-sum sum (r bs) c out e in
      (
        omega arith,
        λ room.
            let equal : room + (out.1 - sum) ≡ room = omega arith in
            (
              c,
              ap (λ (x : Result (A × List ℕ)). beside (room + (out.1 - sum)) x) read
                  ∙ ap (λ (n : ℕ). ok (c, (out.0, n))) equal,
            ),
      );
}

-- A string that is counted and copied.
pub agree_string :
    (size_max : ℕ) (name : List ℕ) → Agrees (count_string size_max (length name)) (copy_string name)
unfolding count_string copy_string
agree_string size_max name = record {
  run = λ bs sum c out e. elim (Bool-cases (ltb (size_max - (length name + 1)) sum)) [
    | inl full ↦
        let refused : count_string size_max (length name) (bs, sum) ≡ err heap_out_of_memory =
          rw full refl in
        not_ok heap_out_of_memory (c, out) (sym refused ∙ e)
    | inr fits ↦
        let counted : count_string size_max (length name) (bs, sum)
            ≡ ok (tt, (bs, sum + (length name + 1))) =
          rw fits refl in
        let same : (tt, (bs, sum + (length name + 1))) ≡ (c, out) =
          let both : ok (tt, (bs, sum + (length name + 1))) ≡ ok (c, out) = sym counted ∙ e in cc in
        let sums : sum + (length name + 1) ≡ out.1 = ap (λ (t : Unit {0} × Input). t.1.1) same in
        (
          omega arith,
          λ room.
              let enough : ltb (room + (out.1 - sum)) (length name + 1) ≡ false = ground arith in
              let left : room + (out.1 - sum) - (length name + 1) ≡ room = omega arith in
              (
                name,
                rw (enough, left) (ap (λ (t : Unit {0} × Input). ok (name, (t.1.0, room))) same),
              ),
        )
  ];
}

-- What is read has the length that was asked for.
pub read_bytes-length : (n : ℕ) (bs bs' a : List ℕ) → read_bytes n bs ≡ ok (a, bs') → length a ≡ n
unfolding read_bytes
read_bytes-length n bs bs' a e = elim (Bool-cases (leb n (length bs))) [
  | inl h ↦
      let taken : read_bytes n bs ≡ ok (take n bs, drop n bs) = rw h refl in
      let both : ok (take n bs, drop n bs) ≡ ok (a, bs') = sym taken ∙ e in
      let same : take n bs ≡ a = cc in
      ground (arith, length-take n bs, ap (λ (x : List ℕ). length x) same)
  | inr h ↦
      let refused : read_bytes n bs ≡ err snapshot_overflow = rw h refl in
      not_ok snapshot_overflow (a, bs') (sym refused ∙ e)
]
