-- ===== src/KeyValue/Check.antt =====
-- `data_range_eq` and `obj_correct` of key_value_checks.c, and what a conflict is.
use cbop.Prelude.{
  ℕ, zero, suc, ◌+◌, ◌-◌, ◌≤◌, ◌<◌, ◌≡◌, ◌↔◌, refl, Bool, true, false, not, ◌&&◌, List, [], ◌∷◌,
  Option, some, arith, ap, map, inl, inr, Bool-cases, length, get_elem?,
}
use cbop.KeyValue.{
  DataRange, simple, complex, KvEntry, KvObject, same_bytes, data_range_eq, entry_conflicts, row,
  check_list, check_from, check_row, object_correct, obj_correct,
}

abbrev pub All {ℓ} : {A : Type 0} → (A → Type ℓ) → List A → Type ℓ
All P [] = Unit
All P (x ∷ xs) = P x × All P xs

same_bytes_iff : (xs ys : List ℕ) → (same_bytes xs ys ≡ true) ↔ (xs ≡ ys)
unfolding same_bytes
same_bytes_iff [] [] = (λ _. refl, λ _. refl)
same_bytes_iff [] (y ∷ ys) = (λ h. cc, λ h. cc)
same_bytes_iff (x ∷ xs) [] = (λ h. cc, λ h. cc)
same_bytes_iff (x ∷ xs) (y ∷ ys) =
    (λ h. ground (arith, same_bytes_iff xs ys), λ h. ground (arith, same_bytes_iff xs ys))

-- `data_range_eq` decides equality.
pub data_range_eq_iff : (a b : DataRange) → (data_range_eq a b ≡ true) ↔ (a ≡ b)
unfolding data_range_eq
data_range_eq_iff (simple a) (simple b) = (λ h. ground arith, λ h. ground arith)
data_range_eq_iff (simple a) (complex bs) = (λ h. cc, λ h. cc)
data_range_eq_iff (complex as') (simple b) = (λ h. cc, λ h. cc)
data_range_eq_iff (complex as') (complex bs) =
    (λ h. ap complex ((same_bytes_iff as' bs).0 h), λ h. (same_bytes_iff as' bs).1 (cc))

-- The same tests with no access that can fail.
all_list : {A : Type 0} → (A → Bool) → List A → Bool
all_list test [] = true
all_list test (e ∷ es) = test e && all_list test es

all_from : ℕ → ℕ → (ℕ → Bool) → Bool
all_from zero start test = true
all_from (suc rounds) start test = test start && all_from rounds (start + 1) test

check_list-all_list :
    {A : Type 0} (code : A → Option Bool) (test : A → Bool)
    → ((a : A) → code a ≡ some (test a))
    → (xs : List A) → check_list code xs ≡ some (all_list test xs)
unfolding check_list all_list
check_list-all_list code test same [] = refl
check_list-all_list code test same (x ∷ xs) =
    ground (arith, same x, check_list-all_list code test same xs)

check_from-all_from :
    (rounds start : ℕ) (code : ℕ → Option Bool) (test : ℕ → Bool)
    → ((i : ℕ) → start ≤ i → i < start + rounds → code i ≡ some (test i))
    → check_from rounds start code ≡ some (all_from rounds start test)
unfolding check_from all_from
check_from-all_from zero start code test same = refl
check_from-all_from (suc rounds) start code test same = ground (
  arith,
  same start,
  check_from-all_from rounds (start + 1) code test (λ i p q. same i (omega arith) (omega arith)),
)

module _ {A : Type 0} (test : A → Bool) (P : A → Type 0) where
  all_list_sound :
      ((a : A) → test a ≡ true → P a) → (xs : List A) → all_list test xs ≡ true → All P xs
  unfolding all_list
  all_list_sound f [] h = tt
  all_list_sound f (x ∷ xs) h = (f x (ground arith), all_list_sound f xs (ground arith))

  all_list_complete :
      ((a : A) → P a → test a ≡ true) → (xs : List A) → All P xs → all_list test xs ≡ true
  unfolding all_list
  all_list_complete f [] h = refl
  all_list_complete f (x ∷ xs) h = ground (arith, f x h.0, all_list_complete f xs h.1)

all_from_sound :
    (rounds start : ℕ) (test : ℕ → Bool) (i : ℕ)
    → all_from rounds start test ≡ true
    → start ≤ i
    → i < start + rounds
    → test i ≡ true
unfolding all_from
all_from_sound zero start test i h p q = absurd (omega arith)
all_from_sound (suc rounds) start test i h p q =
    ground (arith, all_from_sound rounds (start + 1) test i)

all_from_complete :
    (rounds start : ℕ) (test : ℕ → Bool)
    → ((i : ℕ) → start ≤ i → i < start + rounds → test i ≡ true)
    → all_from rounds start test ≡ true
unfolding all_from
all_from_complete zero start test h = refl
all_from_complete (suc rounds) start test h = ground (
  arith,
  h start,
  all_from_complete rounds (start + 1) test (λ i p q. h i (omega arith) (omega arith)),
)

-- The rows of an array, as far as it has any.
abbrev pub entries : List (List KvEntry) → ℕ → List KvEntry
entries [] i = []
entries (es ∷ rows) zero = es
entries (es ∷ rows) (suc i) = entries rows i

pub get_elem?-entries :
    (rows : List (List KvEntry)) (i : ℕ)
    → i < length rows
    → get_elem? rows i ≡ some (entries rows i)
get_elem?-entries [] i h = absurd (omega arith)
get_elem?-entries (es ∷ rows) zero h = refl
get_elem?-entries (es ∷ rows) (suc i) h = get_elem?-entries rows i (omega arith)

-- No entry that a later task wrote conflicts with one that an earlier task read.
abbrev pub ConflictFree : ℕ → List (List KvEntry) → List (List KvEntry) → Type 0
ConflictFree gs reads writes =
    (i j : ℕ)
    → i < j
    → j < gs
    → All (λ r. All (λ w. entry_conflicts r w ≡ false) (entries writes j)) (entries reads i)

writes_test : List (List KvEntry) → KvEntry → ℕ → Bool
writes_test writes r j = all_list (λ w. not (entry_conflicts r w)) (entries writes j)

reads_test : ℕ → List (List KvEntry) → List (List KvEntry) → ℕ → Bool
reads_test gs reads writes i =
    all_list (λ r. all_from (gs - (i + 1)) (i + 1) (writes_test writes r)) (entries reads i)

check_row-get_elem? :
    (code : KvEntry → Option Bool) (test : KvEntry → Bool) (rows : List (List KvEntry)) (i : ℕ)
    → ((e : KvEntry) → code e ≡ some (test e))
    → i < length rows
    → check_row code (row (some rows) i) ≡ some (all_list test (entries rows i))
unfolding check_row row
check_row-get_elem? code test rows i same h =
    rw (get_elem?-entries rows i h) (check_list-all_list code test same (entries rows i))

object_correct-eq :
    (gs : ℕ) (reads writes : List (List KvEntry))
    → length reads ≡ gs
    → length writes ≡ gs
    → object_correct gs (record { reads = some reads; writes = some writes })
      ≡ some (all_from gs 0 (reads_test gs reads writes))
unfolding object_correct reads_test writes_test
object_correct-eq gs reads writes hr hw = check_from-all_from gs 0 _ _ (λ i p q.
    check_row-get_elem? _ _ reads i
      (λ r.
        check_from-all_from (gs - (i + 1)) (i + 1) _ _
          (λ j p' q'. check_row-get_elem? _ _ writes j (λ w. refl) (omega arith)))
      (omega arith))

-- A statement about all later tasks and all entries, read the other way round.
All-later :
    {A : Type 0} (i gs : ℕ) (Q : ℕ → A → Type 0) (xs : List A)
    → ((j : ℕ) → i < j → j < gs → All (Q j) xs)
    → All (λ x. (j : ℕ) → i < j → j < gs → Q j x) xs
All-later i gs Q [] h = tt
All-later i gs Q (x ∷ xs) h = ((λ j p q. (h j p q).0), All-later i gs Q xs (λ j p q. (h j p q).1))

writes_test_sound :
    (writes : List (List KvEntry)) (r : KvEntry) (j : ℕ)
    → writes_test writes r j ≡ true
    → All (λ w. entry_conflicts r w ≡ false) (entries writes j)
unfolding writes_test
writes_test_sound writes r j h =
    all_list_sound _ (λ w. entry_conflicts r w ≡ false) (λ w e. ground arith) (entries writes j) h

writes_test_complete :
    (writes : List (List KvEntry)) (r : KvEntry) (j : ℕ)
    → All (λ w. entry_conflicts r w ≡ false) (entries writes j)
    → writes_test writes r j ≡ true
unfolding writes_test
writes_test_complete writes r j h =
    all_list_complete _ (λ w. entry_conflicts r w ≡ false) (λ w e. ground arith) (entries writes j)
      h

ConflictFree-iff :
    (gs : ℕ) (reads writes : List (List KvEntry))
    → (all_from gs 0 (reads_test gs reads writes) ≡ true) ↔ ConflictFree gs reads writes
unfolding reads_test
ConflictFree-iff gs reads writes = (forth, back)
  where
    forth : all_from gs 0 (reads_test gs reads writes) ≡ true → ConflictFree gs reads writes
    forth h i j p q =
        all_list_sound _ (λ r. All (λ w. entry_conflicts r w ≡ false) (entries writes j))
          (λ r e. writes_test_sound writes r j (
            all_from_sound (gs - (i + 1)) (i + 1) (writes_test writes r) j e (omega arith)
              (omega arith)))
          (entries reads i)
          (all_from_sound gs 0 (reads_test gs reads writes) i h (omega arith) (omega arith))

    back : ConflictFree gs reads writes → all_from gs 0 (reads_test gs reads writes) ≡ true
    back free = all_from_complete gs 0 _ (λ i p q.
        all_list_complete _
          (λ r.
            (j : ℕ) → i < j → j < gs → All (λ w. entry_conflicts r w ≡ false) (entries writes j))
          (λ r later.
            all_from_complete (gs - (i + 1)) (i + 1) (writes_test writes r)
              (λ j p' q'. writes_test_complete writes r j (later j (omega arith) (omega arith))))
          (entries reads i)
          (All-later i gs (λ j r. All (λ w. entry_conflicts r w ≡ false) (entries writes j))
            (entries reads i) (free i)))

-- The arrays that an object holds, and their sizes.
abbrev pub Allocated : ℕ → (List (List KvEntry)) × (List (List KvEntry)) → Type 0
Allocated gs (reads, writes) = (length reads ≡ gs) × (length writes ≡ gs)

abbrev pub object_of : (List (List KvEntry)) × (List (List KvEntry)) → KvObject
object_of (reads, writes) = record { reads = some reads; writes = some writes }

abbrev pub Accepts : ℕ → (List (List KvEntry)) × (List (List KvEntry)) → Type 0
Accepts gs (reads, writes) = ConflictFree gs reads writes

-- For objects whose arrays have a row for each task, the check makes no bad access, and it passes
-- exactly when every object is free of conflicts.
pub obj_correct_iff :
    (gs : ℕ) (objects : List ((List (List KvEntry)) × (List (List KvEntry))))
    → All (Allocated gs) objects
    → (b : Bool) × (obj_correct gs (map object_of objects) ≡ some b)
      × ((b ≡ true) ↔ All (Accepts gs) objects)
unfolding obj_correct check_list
obj_correct_iff gs [] h = (true, refl, ((λ _. tt), (λ _. refl)))
obj_correct_iff gs ((reads, writes) ∷ objects) h =
    let (b, eq, meaning) = obj_correct_iff gs objects h.1 in
    let head = object_correct-eq gs reads writes h.0.0 h.0.1 in
    let free = ConflictFree-iff gs reads writes in
    elim (Bool-cases (all_from gs 0 (reads_test gs reads writes))) [
      | inl pass ↦ (
        b,
        ground (arith, head, pass, eq),
        ((λ e. (free.0 pass, meaning.0 e)), (λ all. meaning.1 all.1)),
      )
      | inr fail ↦
          (false, ground (arith, head, fail), ((λ e. absurd (cc)), (λ all. cc (free.1 all.0))))
    ]
