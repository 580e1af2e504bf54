-- ===== src/Parser/Capacity.antt =====
-- The growth of the parser's arrays (src/frothy_parser.c). What is allocated is the capacity; the
-- allocation itself succeeds.
use froth.Base.{
  ℕ, zero, suc, ◌+◌, ◌*◌, ◌%◌, ◌≤◌, ◌<◌, ◌≡◌, inl, inr, ◌||◌, true, Option, none, some, arith, ltb,
  leb, if◌then◌else◌, Bool-cases,
}
use native.Mathlib.Nat.{mod-eq_of_lt}
use froth.Status.{Result, ok, err, heap_out_of_memory}

-- The loop of frothy_capped_capacity. `needed` rounds are enough, since each at least adds one.
unfoldable pub grow : ℕ → ℕ → ℕ → ℕ → ℕ → ℕ
grow size_max zero capacity needed limit = capacity
grow size_max (suc fuel) capacity needed limit =
    let next = capacity * 2 % (size_max + 1) in
    let rest =
      grow size_max fuel (if ltb next capacity || ltb limit next then limit else next) needed
        limit in
    if ltb capacity needed then rest else capacity

-- frothy_capped_capacity
unfoldable pub capped_capacity : ℕ → ℕ → ℕ → ℕ → ℕ → Option ℕ
unfolding grow
capped_capacity size_max current needed initial limit =
    let capacity = if leb current 0 then initial else current in
    if ltb limit needed
    then none
    else some (grow size_max needed (if ltb limit capacity then limit else capacity) needed limit)

abbrev pub granted : Option ℕ → Result ℕ
granted none = err heap_out_of_memory
granted (some c) = ok c

-- The common body of frothy_parser_reserve_bindings, _scopes and _frames, of
-- frothy_program_reserve_literals, _nodes and _links and of the growth in frothy_node_list_push:
-- the new capacity for `needed` elements.
unfoldable pub reserve : ℕ → ℕ → ℕ → ℕ → ℕ → Result ℕ
reserve size_max initial limit capacity needed =
    if ltb limit capacity
    then err heap_out_of_memory
    else if leb needed capacity
    then ok capacity
    else granted (capped_capacity size_max capacity needed initial limit)

grow_bounds :
    (size_max fuel capacity needed limit : ℕ)
    → limit * 2 ≤ size_max
    → 0 < capacity
    → capacity ≤ limit
    → needed ≤ limit
    → needed ≤ capacity + fuel
    → (needed ≤ grow size_max fuel capacity needed limit)
      × (grow size_max fuel capacity needed limit ≤ limit)
      × (capacity ≤ grow size_max fuel capacity needed limit)
      × ((leb (grow size_max fuel capacity needed limit) capacity
            || ltb (grow size_max fuel capacity needed limit) (needed * 2))
          ≡ true)
unfolding grow
grow_bounds m zero c n l e p h k f = (omega arith, h, omega arith, ground arith)
grow_bounds m (suc f) c n l e p h k enough = elim (Bool-cases (ltb c n)) [
  | inl less ↦
      let fits : c * 2 % (m + 1) ≡ c * 2 = mod-eq_of_lt (omega arith) in
      elim (Bool-cases (ltb (c * 2) c || ltb l (c * 2))) [
        | inl capped ↦
            let rest = grow_bounds m f l n l e (omega arith) (omega arith) k (omega arith) in
            rw (less, fits, capped) (rest.0, rest.1, omega (arith, rest.2), ground (arith, rest.3))
        | inr doubled ↦
            let rest =
              grow_bounds m f (c * 2) n l e (omega arith) (ground arith) k (ground arith) in
            rw (less, fits, doubled) (rest.0, rest.1, omega (arith, rest.2), ground (arith, rest.3))
      ]
  | inr done ↦ rw done (ground arith, h, omega arith, ground arith)
]

-- What may come of asking for room for `needed` elements: a capacity that holds them, within the
-- limit, which is the old one where that was enough and not wasteful otherwise; or an error.
abbrev pub Reserved : ℕ → ℕ → ℕ → ℕ → Result ℕ → Type 0
Reserved initial needed limit capacity (ok c) =
    (needed ≤ c)
    × (c ≤ limit)
    × (capacity ≤ c)
    × (c ≡ (if leb needed capacity then capacity else c))
    × ((leb c initial || leb c capacity || ltb c (needed * 2)) ≡ true)
Reserved initial needed limit capacity (err e) =
    (e ≡ heap_out_of_memory) × ((ltb limit capacity || ltb limit needed) ≡ true)

-- Where the first capacity is between 1 and the limit, and twice the limit is at most SIZE_MAX,
-- `reserve` gives a capacity that holds the elements needed, is within the limit and at least the
-- old one, is the old one where that was enough, and is at most the first capacity, at most
-- the old one, or less than twice the elements needed. It fails exactly where the old
-- capacity or the number of elements is above the limit.
pub reserve_bounds :
    (size_max initial limit capacity needed : ℕ)
    → limit * 2 ≤ size_max
    → 0 < initial
    → initial ≤ limit
    → Reserved initial needed limit capacity (reserve size_max initial limit capacity needed)
unfolding reserve capped_capacity
reserve_bounds m i l c n e p q = elim (Bool-cases (ltb l n || ltb l c)) [
  | inl more ↦ ground arith
  | inr fits ↦
      let from =
        grow_bounds m n (if leb c 0 then i else c) n l e (ground arith) (ground arith)
          (ground arith) (ground arith) in
      ground arith
]
