-- ===== src/Generator/Ranges.antt =====
-- `DeliveryTracker._insert_offset` of generator/report.py: the delivered offsets of one partition, as
-- ranges from a start to an exclusive end.
use kafka_order_event_platfo.Prelude.{
  ℕ, ◌+◌, ◌≤◌, ◌<◌, ◌≡◌, refl, min, max, Bool, true, false, ◌&&◌, ◌||◌, List, [], ◌∷◌, ◌++◌, arith,
  ltb, leb, if◌then◌else◌, ◌==◌, nat_eq, if_split, nat_beq_iff, Bool-cases, inl, inr,
}

abbrev pub Range : Type 0
Range = ℕ × ℕ

-- `range < (offset, offset + 1)`, as tuples compare
abbrev pub is_before : ℕ → Range → Bool
is_before offset (start, end) = ltb start offset || (start == offset && ltb end (offset + 1))

-- `ranges[:index]` and `ranges[index:]`, where `index` is that of `bisect_left`; the ranges are sorted,
-- so it counts those at the front that are less
unfoldable pub split : ℕ → List Range → List Range × List Range
split offset [] = ([], [])
split offset (r ∷ ranges) =
    let (before, after) = split offset ranges in
    if is_before offset r then (r ∷ before, after) else ([], r ∷ ranges)

-- `if index and ranges[index - 1][1] >= start`: the last range before the index is merged
unfoldable pub merge_last : List Range → ℕ → ℕ → List Range × ℕ × ℕ
merge_last [] start end = ([], start, end)
merge_last (r ∷ []) start end =
    if leb start r.1 then ([], min start r.0, max end r.1) else (r ∷ [], start, end)
merge_last (r ∷ q ∷ before) start end =
    let (kept, start', end') = merge_last (q ∷ before) start end in (r ∷ kept, start', end')

-- `while index < len(ranges) and ranges[index][0] <= end`, then the insertion
unfoldable pub absorb : ℕ → ℕ → List Range → List Range
absorb start end [] = (start, end) ∷ []
absorb start end (r ∷ after) =
    let merged = absorb (min start r.0) (max end r.1) after in
    if leb r.0 end then merged else (start, end) ∷ r ∷ after

abbrev pub finish : List Range × ℕ × ℕ → List Range → List Range
finish (before, start, end) after = before ++ absorb start end after

unfoldable pub insert_offset : ℕ → List Range → List Range
unfolding split merge_last absorb
insert_offset offset ranges =
    let (before, after) = split offset ranges in
    finish (merge_last before offset (offset + 1)) after

-- Ranges that are not empty, in order, with a gap between any two, the first one at `low` or later.
abbrev pub Apart : ℕ → List Range → Type 0
Apart low [] = Unit
Apart low ((start, end) ∷ ranges) = (low ≤ start) × (start < end) × Apart (end + 1) ranges

-- Whether an offset is in one of the ranges.
abbrev pub covers : ℕ → List Range → Bool
covers o [] = false
covers o ((start, end) ∷ ranges) = (leb start o && ltb o end) || covers o ranges

Apart-le : (low low' : ℕ) (ranges : List Range) → low' ≤ low → Apart low ranges → Apart low' ranges
Apart-le low low' [] le h = tt
Apart-le low low' (r ∷ ranges) le (from, nonempty, rest) = (omega arith, nonempty, rest)

absorb-Apart :
    (low start end : ℕ) (after : List Range)
    → low ≤ start
    → start < end
    → Apart start after
    → Apart low (absorb start end after)
unfolding absorb
absorb-Apart low start end [] le lt h = (le, lt, tt)
absorb-Apart low start end ((s, e) ∷ after) le lt (from, nonempty, h) =
    if_split (Apart low) (leb s end)
      (λ near.
        absorb-Apart low (min start s) (max end e) after (ground arith) (ground arith)
          (Apart-le (e + 1) (min start s) after (ground arith) h))
      (λ far. (le, lt, (ground (arith, far), nonempty, h)))

covers-absorb :
    (o start end : ℕ) (after : List Range)
    → start < end
    → Apart start after
    → covers o (absorb start end after) ≡ ((leb start o && ltb o end) || covers o after)
unfolding absorb
covers-absorb o start end [] lt h = refl
covers-absorb o start end ((s, e) ∷ after) lt (from, nonempty, h) = ground (
  arith,
  from,
  nonempty,
  lt,
  covers-absorb o (min start s) (max end e) after (ground arith)
      (Apart-le (e + 1) (min start s) after (ground arith) h),
)

-- The insertion, given the two parts of the split.
abbrev put_between : ℕ → List Range × List Range → List Range
put_between o (before, after) = finish (merge_last before o (o + 1)) after

-- A range that has another one before the index is kept.
put_between-cons :
    (o : ℕ) (r q : Range) (before after : List Range)
    → put_between o (r ∷ q ∷ before, after) ≡ r ∷ put_between o (q ∷ before, after)
unfolding merge_last
put_between-cons o r q before after = refl

split-before :
    (o : ℕ) (r : Range) (ranges : List Range)
    → is_before o r ≡ true
    → split o (r ∷ ranges) ≡ (r ∷ (split o ranges).0, (split o ranges).1)
unfolding split
split-before o r ranges h = rw h refl

split-after :
    (o : ℕ) (r : Range) (ranges : List Range)
    → is_before o r ≡ false
    → split o (r ∷ ranges) ≡ ([], r ∷ ranges)
unfolding split
split-after o r ranges h = rw h refl

-- The insertion is right where the ranges are well-formed.
abbrev pub IsInserted : ℕ → ℕ → List Range → List Range → Type 0
IsInserted low o ranges result =
    Apart low result × ((x : ℕ) → covers x result ≡ (x == o || covers x ranges))

-- No range is before the offset.
absorb-IsInserted :
    (low o : ℕ) (ranges : List Range)
    → low ≤ o
    → Apart o ranges
    → IsInserted low o ranges (absorb o (o + 1) ranges)
absorb-IsInserted low o ranges le h = (
  absorb-Apart low o (o + 1) ranges le (omega arith) h,
  λ x. ground (arith, covers-absorb x o (o + 1) ranges (omega arith) h, nat_beq_iff x o),
)

-- Exactly one range is before the offset.
put_between-IsInserted :
    (low o s e : ℕ) (after : List Range)
    → low ≤ s
    → s < e
    → s < o
    → Apart (e + 1) after
    → Apart o after
    → IsInserted low o ((s, e) ∷ after) (put_between o ((s, e) ∷ [], after))
unfolding merge_last
put_between-IsInserted low o s e after le nonempty lt h later = elim (Bool-cases (leb o e)) [
  | inl near ↦ rw near (
    absorb-Apart low (min o s) (max (o + 1) e) after (ground arith) (ground arith)
        (Apart-le (e + 1) (min o s) after (ground arith) h),
    λ x. ground (
      arith,
      near,
      nat_beq_iff x o,
      covers-absorb x (min o s) (max (o + 1) e) after (ground arith)
          (Apart-le (e + 1) (min o s) after (ground arith) h),
    ),
  )
  | inr far ↦ rw far (
    (le, nonempty, absorb-Apart (e + 1) o (o + 1) after (ground (arith, far)) (omega arith) later),
    λ x. ground (arith, nat_beq_iff x o, covers-absorb x o (o + 1) after (omega arith) later),
  )
]

insert_offset_lem :
    (o : ℕ) (ranges : List Range) → insert_offset o ranges ≡ put_between o (split o ranges)
unfolding insert_offset
insert_offset_lem o ranges = refl

-- A range is kept in front of the insertion into what follows it.
more_before-IsInserted :
    (low o s e : ℕ) (q : Range) (ranges : List Range)
    → low ≤ s
    → s < e
    → is_before o (s, e) ≡ true
    → is_before o q ≡ true
    → IsInserted (e + 1) o (q ∷ ranges) (insert_offset o (q ∷ ranges))
    → IsInserted low o ((s, e) ∷ q ∷ ranges) (insert_offset o ((s, e) ∷ q ∷ ranges))
more_before-IsInserted low o s e q ranges le nonempty first second (apart, covered) =
    let kept : insert_offset o ((s, e) ∷ q ∷ ranges) ≡ (s, e) ∷ insert_offset o (q ∷ ranges) =
      rw
        (
          insert_offset_lem o ((s, e) ∷ q ∷ ranges),
          insert_offset_lem o (q ∷ ranges),
          split-before o (s, e) (q ∷ ranges) first,
          split-before o q ranges second,
        )
        (put_between-cons o (s, e) q (split o ranges).0 (split o ranges).1) in
    rw kept ((le, nonempty, apart), λ x. ground (arith, covered x))

none_before-IsInserted :
    (low o s e : ℕ) (ranges : List Range)
    → low ≤ o
    → Apart low ((s, e) ∷ ranges)
    → is_before o (s, e) ≡ false
    → IsInserted low o ((s, e) ∷ ranges) (insert_offset o ((s, e) ∷ ranges))
unfolding merge_last
none_before-IsInserted low o s e ranges le (from, nonempty, h) far =
    rw (insert_offset_lem o ((s, e) ∷ ranges), split-after o (s, e) ranges far)
      (absorb-IsInserted low o ((s, e) ∷ ranges) le (ground (arith, far), nonempty, h))

one_before-IsInserted :
    (low o s e : ℕ) (ranges : List Range)
    → Apart low ((s, e) ∷ ranges)
    → is_before o (s, e) ≡ true
    → split o ranges ≡ ([], ranges)
    → Apart o ranges
    → IsInserted low o ((s, e) ∷ ranges) (insert_offset o ((s, e) ∷ ranges))
one_before-IsInserted low o s e ranges (from, nonempty, h) first rest later =
    rw (insert_offset_lem o ((s, e) ∷ ranges), split-before o (s, e) ranges first, rest)
      (put_between-IsInserted low o s e ranges from nonempty (ground (arith, first, nonempty)) h
        later)

-- Inserting an offset into ranges that are not empty, in order and with a gap between any two gives
-- ranges of that kind, and they cover the offset and what was covered before, and nothing else.
pub insert_offset-IsInserted :
    (low o : ℕ) (ranges : List Range)
    → low ≤ o
    → Apart low ranges
    → IsInserted low o ranges (insert_offset o ranges)
insert_offset-IsInserted low o [] le h = unfold insert_offset in absorb-IsInserted low o [] le tt
insert_offset-IsInserted low o ((s, e) ∷ []) le h = elim (Bool-cases (is_before o (s, e))) [
  | inl first ↦ one_before-IsInserted low o s e [] h first (unfold split in refl) tt
  | inr far ↦ none_before-IsInserted low o s e [] le h far
]
insert_offset-IsInserted low o ((s, e) ∷ (s', e') ∷ ranges) le (from, nonempty, h) =
    elim (Bool-cases (is_before o (s, e))) [
      | inl first ↦ elim (Bool-cases (is_before o (s', e'))) [
        | inl second ↦
            more_before-IsInserted low o s e (s', e') ranges from nonempty first second
              (insert_offset-IsInserted (e + 1) o ((s', e') ∷ ranges) (ground (arith, h, second)) h)
        | inr far ↦
            one_before-IsInserted low o s e ((s', e') ∷ ranges) (from, nonempty, h) first
              (split-after o (s', e') ranges far) (ground (arith, far, h.0), h.1, h.2)
      ]
      | inr far ↦ none_before-IsInserted low o s e ((s', e') ∷ ranges) le (from, nonempty, h) far
    ]
