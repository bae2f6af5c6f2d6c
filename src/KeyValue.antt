-- ===== src/KeyValue.antt =====
-- key_value_checks.c: object-level monitoring, which compares the key-value pairs that the tasks of a
-- group read and wrote. The list lock is held for the whole of each operation and leaves no trace.
pub mod Check
pub mod Record
use cbop.Prelude.{
  ℕ, zero, suc, ◌+◌, ◌-◌, Bool, true, false, ◌&&◌, not, List, [], ◌∷◌, Option, none, some, ltb,
  ◌==◌, get_elem?, set, if◌then◌else◌,
}

pub data MemOp : Type 0 where
  read write read_and_write : MemOp

-- `data_range`: an int, as its bit pattern, or a copied block of bytes.
pub data DataRange : Type 0 where
  simple : ℕ → DataRange
  complex : List ℕ → DataRange

-- `__raw_kv_entry_t`; `next` is the list that the entry stands in.
pub record KvEntry : Type 0 where
  pub key : DataRange
  pub value : DataRange

-- `__raw_kv_object_t`: two arrays of lists, by spec order; `none` is a NULL array.
pub record KvObject : Type 0 where
  pub reads : Option (List (List KvEntry))
  pub writes : Option (List (List KvEntry))

-- What a call leaves: a new object, or the process is gone by `bop_assert` or by a bad access.
pub data Outcome (A : Type 0) : Type 0 where
  done : A → Outcome A
  asserted : Outcome A
  fault : Outcome A

-- `SET(new_entry->next, rows[i]); rows[i] = new_entry;`
unfoldable pub push_row : Option (List (List KvEntry)) → ℕ → KvEntry → Option (List (List KvEntry))
push_row none i e = none
push_row (some rows) i e = elim (get_elem? rows i) [
  | none ↦ none
  | some row ↦ some (set rows i (e ∷ row))
]

unfoldable pub push_read : KvObject → ℕ → KvEntry → Outcome KvObject
unfolding push_row
push_read obj i e = elim (push_row obj.reads i e) [
  | none ↦ fault
  | some rows ↦ done (record obj { reads = some rows })
]

unfoldable pub push_write : KvObject → ℕ → KvEntry → Outcome KvObject
unfolding push_row
push_write obj i e = elim (push_row obj.writes i e) [
  | none ↦ fault
  | some rows ↦ done (record obj { writes = some rows })
]

-- The first branch takes READ and READ_AND_WRITE, so that the second one is left with WRITE.
unfoldable pub record_op : KvObject → MemOp → ℕ → KvEntry → Outcome KvObject
unfolding push_read push_write
record_op obj read i e = push_read obj i e
record_op obj read_and_write i e = push_read obj i e
record_op obj write i e = push_write obj i e

unfoldable pub record_internal : ℕ → ℕ → KvObject → MemOp → KvEntry → Outcome KvObject
unfolding record_op
record_internal group_size spec_order obj op e =
    if ltb 0 spec_order && ltb spec_order group_size
    then record_op obj op spec_order e
    else asserted

-- `register_new_object`: `calloc` clears the object, and the new head of the list is returned.
unfoldable pub register_new_object : List KvObject → List KvObject × KvObject
register_new_object kv_list =
    let kvo : KvObject = record { reads = none; writes = none } in (kvo ∷ kv_list, kvo)

-- The loop over the bytes, which stops at the first difference.
unfoldable pub same_bytes : List ℕ → List ℕ → Bool
same_bytes [] [] = true
same_bytes [] (b ∷ bs) = false
same_bytes (a ∷ as') [] = false
same_bytes (a ∷ as') (b ∷ bs) = a == b && same_bytes as' bs

unfoldable pub data_range_eq : DataRange → DataRange → Bool
unfolding same_bytes
data_range_eq (simple a) (simple b) = a == b
data_range_eq (simple a) (complex bs) = false
data_range_eq (complex as') (simple b) = false
data_range_eq (complex as') (complex bs) = same_bytes as' bs

unfoldable pub entry_conflicts : KvEntry → KvEntry → Bool
unfolding data_range_eq
entry_conflicts r w = data_range_eq r.key w.key && not (data_range_eq r.value w.value)

-- `rows[i]`; `none` is the access to a NULL array or beyond its end.
unfoldable pub row : Option (List (List KvEntry)) → ℕ → Option (List KvEntry)
row none i = none
row (some rows) i = get_elem? rows i

-- `for (x = es; x != NULL; x = x->next)` over a test that returns 0 at once where it fails; `none` is
-- a bad access on the way.
unfoldable pub check_list : {A : Type 0} → (A → Option Bool) → List A → Option Bool
check_list test [] = some true
check_list test (e ∷ es) = elim (test e) [
  | none ↦ none
  | some true ↦ check_list test es
  | some false ↦ some false
]

-- `for (i = start; ...; i++)` in the same way, with the number of rounds left.
unfoldable pub check_from : ℕ → ℕ → (ℕ → Option Bool) → Option Bool
check_from zero start test = some true
check_from (suc rounds) start test = elim (test start) [
  | none ↦ none
  | some true ↦ check_from rounds (start + 1) test
  | some false ↦ some false
]

-- The loop over a row that may not be there.
unfoldable pub check_row : (KvEntry → Option Bool) → Option (List KvEntry) → Option Bool
unfolding check_list
check_row test none = none
check_row test (some es) = check_list test es

unfoldable pub object_correct : ℕ → KvObject → Option Bool
unfolding check_from check_row row
object_correct gs obj = check_from gs 0 (λ read_index.
    check_row
      (λ r. check_from (gs - (read_index + 1)) (read_index + 1) (λ write_index.
        check_row (λ w. some (not (entry_conflicts r w))) (row obj.writes write_index)))
      (row obj.reads read_index))

unfoldable pub obj_correct : ℕ → List KvObject → Option Bool
unfolding object_correct check_list
obj_correct gs kv_list = check_list (object_correct gs) kv_list
