-- ===== src/Codec/Transmit.antt =====
-- How a writer and a decoder of src/frothy_snapshot_codec.c fit together: what one writes, the other
-- reads.
use froth.Base.{ℕ, ◌+◌, ◌≡◌, refl, sym, ap, ◌∙◌, List, [], ◌∷◌, ◌++◌, arith}
use froth.Status.{Result, ok, err, after}
use froth.Codec.Put.{skip, Put, ◌>>◌, Writer}
use froth.Codec.Get.{Get, Input, carry, ◌>>=◌, beside, on_bytes, give}

append-[] : (xs : List ℕ) → xs ++ [] ≡ xs
append-[] [] = refl
append-[] (x ∷ xs) = ap (λ (t : List ℕ). x ∷ t) (append-[] xs)

append_assoc : (xs ys zs : List ℕ) → (xs ++ ys) ++ zs ≡ xs ++ (ys ++ zs)
append_assoc [] ys zs = refl
append_assoc (x ∷ xs) ys zs = ap (λ (t : List ℕ). x ∷ t) (append_assoc xs ys zs)

-- Where the writer succeeds, it appends bytes that the reader takes for the value, whatever follows.
pub record Sends {A : Type 0} (m : Put) (r : Get (List ℕ) A) (a : A) : Type 0 where
  pub run :
      (w w' : Writer)
      → m w ≡ (ok tt, w')
      → (bs : List ℕ) × (w' ≡ record w { bytes = w.bytes ++ bs })
        × ((rest : List ℕ) → r (bs ++ rest) ≡ ok (a, rest))

-- The same for a decoder that needs room for strings, and leaves what is beyond it.
pub record Transmits {A : Type 0} (m : Put) (d : Get Input A) (n : ℕ) (a : A) : Type 0 where
  pub run :
      (w w' : Writer)
      → m w ≡ (ok tt, w')
      → (bs : List ℕ) × (w' ≡ record w { bytes = w.bytes ++ bs })
        × ((rest : List ℕ) (room : ℕ) → d (bs ++ rest, room + n) ≡ ok (a, (rest, room)))

bind-ok :
    (r : Result (Unit {0})) (s s' : Writer) (k : Put)
    → after r s (λ u. k) ≡ (ok tt, s')
    → (r ≡ ok tt) × (k s ≡ (ok tt, s'))
bind-ok (ok u) s s' k e = (refl, e)
bind-ok (err x) s s' k e =
    let bad : err x ≡ ok tt = ap (λ (t : Result (Unit {0}) × Writer). t.0) e in cc

written_twice :
    (w w1 w2 : Writer) (bs cs : List ℕ)
    → w1 ≡ record w { bytes = w.bytes ++ bs }
    → w2 ≡ record w1 { bytes = w1.bytes ++ cs }
    → w2 ≡ record w { bytes = w.bytes ++ (bs ++ cs) }
written_twice w w1 w2 bs cs p q =
    q
    ∙ ap (λ (v : Writer). record v { bytes = v.bytes ++ cs }) p
    ∙ ap (λ (x : List ℕ). record w { bytes = x }) (append_assoc w.bytes bs cs)

module _ {A B : Type 0} {m : Put} {r : Get (List ℕ) A} {a : A} (sends : Sends m r a) where
  pub Sends-next :
      (f : A → Get (List ℕ) B) {m' : Put} {b : B} → Sends m' (f a) b → Sends (m >> m') (r >>= f) b
  Sends-next f {m' = m'} step = record {
    run = λ w w' e.
        let (e1, e2) = bind-ok (m w).0 (m w).1 w' m' e in
        let (bs, p, q) = sends.run w (m w).1 (ap (λ (x : Result (Unit {0})). (x, (m w).1)) e1) in
        let (cs, p', q') = step.run (m w).1 w' e2 in
        (
          bs ++ cs,
          written_twice w (m w).1 w' bs cs p p',
          λ rest.
              ap (λ (x : List ℕ). carry (r x) f) (append_assoc bs cs rest)
              ∙ ap (λ (x : Result (A × List ℕ)). carry x f) (q (cs ++ rest))
              ∙ q' rest,
        );
  }

  pub Sends-packed : (g : A → B) → Sends m (r >>= λ x. give (g x)) (g a)
  Sends-packed g = record {
    run = λ w w' e.
        let (bs, p, q) = sends.run w w' e in
        (bs, p, λ rest. ap (λ (x : Result (A × List ℕ)). carry x (λ y. give (g y))) (q rest));
  }

  pub Sends-last :
      (f : A → Get (List ℕ) B) {b : B}
      → ((rest : List ℕ) → f a rest ≡ ok (b, rest))
      → Sends m (r >>= f) b
  Sends-last f end = record {
    run = λ w w' e.
        let (bs, p, q) = sends.run w w' e in
        (bs, p, λ rest. ap (λ (x : Result (A × List ℕ)). carry x f) (q rest) ∙ end rest);
  }

  -- A field that is followed by others.
  pub next :
      (f : A → Get Input B) {m' : Put} {n : ℕ} {b : B}
      → Transmits m' (f a) n b
      → Transmits (m >> m') (on_bytes r >>= f) n b
  next f {m' = m'} {n = n} step = record {
    run = λ w w' e.
        let (e1, e2) = bind-ok (m w).0 (m w).1 w' m' e in
        let (bs, p, q) = sends.run w (m w).1 (ap (λ (x : Result (Unit {0})). (x, (m w).1)) e1) in
        let (cs, p', q') = step.run (m w).1 w' e2 in
        (
          bs ++ cs,
          written_twice w (m w).1 w' bs cs p p',
          λ rest room.
              ap (λ (x : List ℕ). carry (beside (room + n) (r x)) f) (append_assoc bs cs rest)
              ∙ ap (λ (x : Result (A × List ℕ)). carry (beside (room + n) x) f) (q (cs ++ rest))
              ∙ q' rest room,
        );
  }

  -- The last field.
  pub last :
      (f : A → Get Input B) {n : ℕ} {b : B}
      → ((rest : List ℕ) (room : ℕ) → f a (rest, room + n) ≡ ok (b, (rest, room)))
      → Transmits m (on_bytes r >>= f) n b
  last f {n = n} end = record {
    run = λ w w' e.
        let (bs, p, q) = sends.run w w' e in
        (
          bs,
          p,
          λ rest room.
              ap (λ (x : Result (A × List ℕ)). carry (beside (room + n) x) f) (q rest)
              ∙ end rest room,
        );
  }

module _ {A B : Type 0} {m : Put} {d : Get Input A} {n : ℕ} {a : A} (sent : Transmits m d n a) where
  -- One part after another.
  pub in_turn :
      (f : A → Get Input B) {m' : Put} {k : ℕ} {b : B}
      → Transmits m' (f a) k b
      → Transmits (m >> m') (d >>= f) (k + n) b
  in_turn f {m' = m'} {k = k} step = record {
    run = λ w w' e.
        let (e1, e2) = bind-ok (m w).0 (m w).1 w' m' e in
        let (bs, p, q) = sent.run w (m w).1 (ap (λ (x : Result (Unit {0})). (x, (m w).1)) e1) in
        let (cs, p', q') = step.run (m w).1 w' e2 in
        (
          bs ++ cs,
          written_twice w (m w).1 w' bs cs p p',
          λ rest room.
              let grouped : room + (k + n) ≡ room + k + n = omega arith in
              ap (λ (x : List ℕ). carry (d (x, room + (k + n))) f) (append_assoc bs cs rest)
              ∙ ap (λ (x : ℕ). carry (d (bs ++ (cs ++ rest), x)) f) grouped
              ∙ ap (λ (x : Result (A × Input)). carry x f) (q (cs ++ rest) (room + k))
              ∙ q' rest room,
        );
  }

  -- What is read is packed into a value.
  pub packed : (g : A → B) → Transmits m (d >>= λ x. give (g x)) n (g a)
  packed g = record {
    run = λ w w' e.
        let (bs, p, q) = sent.run w w' e in
        (
          bs,
          p,
          λ rest room. ap (λ (x : Result (A × Input)). carry x (λ y. give (g y))) (q rest room),
        );
  }

-- A read beside the room for strings takes none of it.
pub beside_strings :
    {A : Type 0} {m : Put} {r : Get (List ℕ) A} {a : A} → Sends m r a → Transmits m (on_bytes r) 0 a
beside_strings {A = A} {a = a} sends = record {
  run = λ w w' e.
      let (bs, p, q) = sends.run w w' e in
      (
        bs,
        p,
        λ rest room.
            let all : room + 0 ≡ room = omega arith in
            ap (λ (x : Result (A × List ℕ)). beside (room + 0) x) (q rest)
            ∙ ap (λ (x : ℕ). ok (a, (rest, x))) all,
      );
}

-- Nothing is written and nothing is read.
pub no_bytes : {A : Type 0} (a : A) → Sends skip (give a) a
no_bytes a = record {
  run = λ w w' e.
      let same : w ≡ w' = ap (λ (t : Result (Unit {0}) × Writer). t.1) e in
      (
        [],
        sym same ∙ ap (λ (x : List ℕ). record w { bytes = x }) (sym (append-[] w.bytes)),
        λ rest. refl,
      );
}

pub nothing : {A : Type 0} (a : A) → Transmits skip (give a) 0 a
nothing a = record {
  run = λ w w' e.
      let same : w ≡ w' = ap (λ (t : Result (Unit {0}) × Writer). t.1) e in
      (
        [],
        sym same ∙ ap (λ (x : List ℕ). record w { bytes = x }) (sym (append-[] w.bytes)),
        λ rest room.
            let all : room + 0 ≡ room = omega arith in ap (λ (x : ℕ). ok (a, (rest, x))) all,
      );
}
