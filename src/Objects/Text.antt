-- ===== src/Objects/Text.antt =====
-- The texts of src/frothy_value.c: what a text object reads after another was allocated.
use mathlib.Core.Path.{subst}
use froth.Base.{
  ℕ, ◌+◌, ◌-◌, ◌/◌, ◌%◌, ◌*◌, ◌^◌, ◌<◌, ◌≤◌, ◌≡◌, ◌≢◌, ◌⊎◌, refl, sym, ap, ◌∙◌, true, false, List,
  [], ◌∷◌, ◌++◌, arith, ltb, leb, ◌==◌, if◌then◌else◌, length, take, drop, write_at, Bool-cases,
  inl, inr, length-append,
}
use froth.Status.{Result, is_ok, ok, err, heap_out_of_memory}
use froth.Spans.{Span, in_span}
use froth.Payload.{Payload, align_up, alloc_payload, alloc_reserved}
use froth.Payload.Laws
use froth.Payload.Laws.{Allocated, align_up_lem, alloc_payload-Outcome, free_at}
use froth.Value.{object_value}
use froth.Value.Tags.{references}
use froth.Objects.{
  Object, Runtime, text_object, object_at, get_text, alloc_text, place_text, undo_payload,
  append_object,
}
use froth.Objects.Bytes.{read_elsewhere, read_written}
use froth.Objects.Append
use froth.Objects.Append.{Appended, append_object-Outcome}

-- The text at an id, where it is live.
get_text-live :
    (rt : Runtime) (id : ℕ) (s : Span) (n : ℕ)
    → id < 2 ^ 30
    → id < length rt.objects
    → (object_at rt id).live ≡ true
    → (object_at rt id).body ≡ text_object s n
    → get_text rt (object_value id) ≡ ok (take n (drop s.offset rt.payload_bytes))
unfolding get_text
get_text-live rt id s n small inside alive text =
    let r = references id small in
    let known : leb (length rt.objects) id ≡ false = ground arith in
    simp (r.0, r.1, known, alive, text) refl

-- The runtime when the bytes are in place and the object is not yet.
abbrev with_bytes : List ℕ → Span → Payload → Runtime → Runtime
with_bytes text s p rt = record rt {
  payload = p;
  payload_bytes = write_at s.offset (text ++ 0 ∷ []) rt.payload_bytes;
}

-- What a text that was allocated consists of.
record Placed (size_max n : ℕ) (text : List ℕ) (rt : Runtime) (value : ℕ) (rt' : Runtime)
    : Type 0 where
  span : Span
  payload : Payload
  bytes : Allocated size_max n rt.payload span payload
  object : Appended (text_object span (length text)) (with_bytes text span payload rt) value rt'

module _ (alignment size_max : ℕ) (text : List ℕ) (rt : Runtime) (v : Append.IsValid rt) where
  undone :
      (s : Span) (p : Payload) (r : Result ℕ × Runtime) (value : ℕ) (rt' : Runtime)
      → Append.Outcome (text_object s (length text)) (with_bytes text s p rt) r
      → undo_payload alignment size_max s r ≡ (ok value, rt')
      → Appended (text_object s (length text)) (with_bytes text s p rt) value rt'
  undone s p (ok x, rt1) value rt' o e =
      subst (Append.Outcome (text_object s (length text)) (with_bytes text s p rt)) e o
  undone s p (err x, rt1) value rt' o e = cc

  placed :
      (n : ℕ) (r : Result Span × Payload) (value : ℕ) (rt' : Runtime)
      → Laws.Outcome size_max n rt.payload r
      → place_text alignment size_max text r rt ≡ (ok value, rt')
      → Placed size_max n text rt value rt'
  unfolding place_text
  placed n (ok s, p) value rt' o e = record {
    span = s;
    payload = p;
    bytes = o;
    object =
        undone s p (append_object (text_object s (length text)) (with_bytes text s p rt)) value rt'
          (append_object-Outcome (text_object s (length text)) (with_bytes text s p rt)
            (record { counted = v.counted; within = v.within; marked = v.marked }))
          e;
  }
  placed n (err x, p) value rt' o e = cc

  module _ (pv : Laws.IsValid size_max rt.payload)
      (backed : length rt.payload_bytes ≡ rt.payload.capacity) (few : rt.object_capacity ≤ 2 ^ 30)
      (aligned : 0 < alignment) (fits : alignment ≤ size_max) (value : ℕ) (rt' : Runtime)
      (done : alloc_text alignment size_max text rt ≡ (ok value, rt')) where
    not_huge : ltb (size_max - 1) (length text) ≡ false
    unfolding alloc_text
    not_huge = ground (arith, done)

    placing :
        place_text alignment size_max text
          (alloc_payload alignment size_max (length text + 1) rt.payload)
          rt
        ≡ (ok value, rt')
    unfolding alloc_text
    placing = rw not_huge at done

    refused : align_up alignment size_max (length text + 1) ≢ err heap_out_of_memory
    unfolding alloc_payload alloc_reserved place_text
    refused q =
        let e : false ≡ true =
          ap (λ (r : Result ℕ × Runtime). is_ok r.0)
            (sym (
                ap
                  (λ (r : Result ℕ).
                    place_text alignment size_max text (alloc_reserved r rt.payload) rt)
                  q)
              ∙ placing) in
        cc

    -- The number of bytes that are reserved.
    reserved : (n : ℕ) × (align_up alignment size_max (length text + 1) ≡ ok n) × (length text < n)
    reserved =
        let h : length text + 1 ≤ size_max = ground (arith, not_huge) in
        let up = align_up_lem alignment size_max (length text + 1) aligned fits h in
        let size =
          ((length text + 1) / alignment + (if (length text + 1) % alignment == 0 then 0 else 1))
          * alignment in
        elim (Bool-cases (leb size size_max)) [
          | inl e ↦ (size, up.0 ∙ rw e refl, omega (arith, up.1))
          | inr e ↦ absurd (refused (up.0 ∙ rw e refl))
        ]

    place : Placed size_max reserved.0 text rt value rt'
    place =
        placed reserved.0 (alloc_payload alignment size_max (length text + 1) rt.payload) value rt'
          (alloc_payload-Outcome alignment size_max (length text + 1) reserved.0 rt.payload
            reserved.1 (omega (arith, reserved.2)) pv)
          placing

    room : place.span.offset + (length text + 1) ≤ rt.payload.capacity
    room = omega (arith, place.bytes.inside, place.bytes.size, reserved.2)

    outside :
        (x : ℕ)
        → in_span place.span x ≡ false
        → (x < place.span.offset) ⊎ (place.span.offset + length (text ++ 0 ∷ []) ≤ x)
    outside x e = elim (Bool-cases (ltb x place.span.offset)) [
      | inl low ↦ inl (ground arith)
      | inr high ↦ inr (ground (arith, place.bytes.size, reserved.2, length-append text (0 ∷ [])))
    ]

    -- The text that was allocated is read back; a text that was live, and whose bytes were not free,
    -- reads as it did. For a valid runtime whose ids fit a value.
    pub get_text-alloc_text :
        (get_text rt' value ≡ ok text)
        × ((i n : ℕ) (s : Span)
            → i < length rt.objects
            → (object_at rt i).live ≡ true
            → (object_at rt i).body ≡ text_object s n
            → ((x : ℕ) → s.offset ≤ x → x < s.offset + n → free_at rt.payload x ≡ false)
            → get_text rt' (object_value i) ≡ get_text rt (object_value i))
    get_text-alloc_text = (new, kept)
      where
        a :
            Appended
              (text_object place.span (length text))
              (with_bytes text place.span place.payload rt)
              value
              rt'
        a = place.object

        new : get_text rt' value ≡ ok text
        new =
            ap (get_text rt') a.reference
            ∙ get_text-live rt' a.id place.span (length text) (omega (arith, a.in_capacity))
                a.in_table (ap (λ (o : Object). o.live) a.present)
                (ap (λ (o : Object). o.body) a.present)
            ∙ ap (λ (t : List ℕ). ok (take (length text) (drop place.span.offset t))) a.same_bytes
            ∙ ap ok (
                read_written place.span.offset text (0 ∷ []) rt.payload_bytes (omega (arith, room)))

        kept :
            (i n : ℕ) (s : Span)
            → i < length rt.objects
            → (object_at rt i).live ≡ true
            → (object_at rt i).body ≡ text_object s n
            → ((x : ℕ) → s.offset ≤ x → x < s.offset + n → free_at rt.payload x ≡ false)
            → get_text rt' (object_value i) ≡ get_text rt (object_value i)
        kept i n s inside alive body taken =
            let small : i < 2 ^ 30 = omega (arith, v.within) in
            let same : object_at rt' i ≡ object_at rt i =
              a.others i (λ q. let dead : (object_at rt a.id).live ≡ false = a.was_dead in cc) in
            get_text-live rt' i s n small (omega (arith, a.table_grows))
              (ap (λ (o : Object). o.live) same ∙ alive) (ap (λ (o : Object). o.body) same ∙ body)
            ∙ ap (λ (t : List ℕ). ok (take n (drop s.offset t))) a.same_bytes
            ∙ ap ok (
                read_elsewhere n s.offset place.span.offset (text ++ 0 ∷ []) rt.payload_bytes
                  (λ x low high. elim (Bool-cases (in_span place.span x)) [
                    | inl e ↦
                        let was : free_at rt.payload x ≡ true = place.bytes.was_free x e in
                        let is : free_at rt.payload x ≡ false = taken x low high in absurd cc
                    | inr e ↦ outside x e
                  ]))
            ∙ sym (get_text-live rt i s n small inside alive body)
