-- ===== src/KeyValue/Record.antt =====
-- The recording functions of key_value_checks.c, and what they leave in the object.
use cbop.Prelude.{
  ℕ, ◌+◌, ◌*◌, ◌<◌, ◌≡◌, ◌≢◌, List, [], ◌∷◌, zero, suc, arith, length, set, ◌==◌, if◌then◌else◌,
}
use cbop.KeyValue.{
  MemOp, read, write, read_and_write, simple, complex, KvEntry, KvObject, Outcome, done,
  record_internal, register_new_object,
}
use cbop.KeyValue.Check.{entries, object_of, get_elem?-entries}

-- The bytes of a C string up to its end, as many as `strlen` counts.
unfoldable pub c_string : List ℕ → List ℕ
c_string [] = []
c_string (c ∷ cs) = let rest = c_string cs in if c == 0 then [] else c ∷ rest

-- `size` bytes of memory from an address on.
unfoldable pub copy_range : (ℕ → ℕ) → ℕ → ℕ → List ℕ
copy_range memory start zero = []
copy_range memory start (suc size) = memory start ∷ copy_range memory (start + 1) size

module _ (group_size spec_order : ℕ) (obj : KvObject) (op : MemOp) where
  unfoldable pub record_str_pr : List ℕ → List ℕ → Outcome KvObject
  record_str_pr key value =
      record_internal group_size spec_order obj op
        (record { key = complex (c_string key); value = complex (c_string value) })

  unfoldable pub record_array : (ℕ → ℕ) → ℕ → ℕ → ℕ → Outcome KvObject
  record_array memory array index array_data_size =
      record_internal group_size spec_order obj op (record {
        key = simple index;
        value = complex (copy_range memory (array + index * array_data_size) array_data_size);
      })

  unfoldable pub record_str_array : ℕ → List ℕ → Outcome KvObject
  record_str_array ind value =
      record_internal group_size spec_order obj op
        (record { key = simple ind; value = complex (c_string value) })

  unfoldable pub record_int_pair : ℕ → ℕ → Outcome KvObject
  record_int_pair ind value =
      record_internal group_size spec_order obj op
        (record { key = simple ind; value = simple value })

  unfoldable pub record_int_array : ℕ → (ℕ → ℕ) → Outcome KvObject
  record_int_array ind array = record_int_pair ind (array ind)

-- The rows that an operation leaves: the new entry stands first in its row.
abbrev pub recorded :
    MemOp
    → ℕ
    → KvEntry
    → (List (List KvEntry)) × (List (List KvEntry))
    → (List (List KvEntry)) × (List (List KvEntry))
recorded write i e (reads, writes) = (reads, set writes i (e ∷ entries writes i))
recorded read i e (reads, writes) = (set reads i (e ∷ entries reads i), writes)
recorded read_and_write i e (reads, writes) = (set reads i (e ∷ entries reads i), writes)

-- With arrays of the group's size, recording by a task other than the first one of the group succeeds
-- and puts the entry in front of the task's row: of the writes for WRITE, and of the reads alone for
-- READ and for READ_AND_WRITE.
pub record_internal-recorded :
    (gs i : ℕ) (op : MemOp) (e : KvEntry) (reads writes : List (List KvEntry))
    → length reads ≡ gs
    → length writes ≡ gs
    → 0 < i
    → i < gs
    → record_internal gs i (object_of (reads, writes)) op e
      ≡ done (object_of (recorded op i e (reads, writes)))
unfolding record_internal
record_internal-recorded gs i read e reads writes hr hw p q =
    ground (arith, get_elem?-entries reads i)
record_internal-recorded gs i write e reads writes hr hw p q =
    ground (arith, get_elem?-entries writes i)
record_internal-recorded gs i read_and_write e reads writes hr hw p q =
    ground (arith, get_elem?-entries reads i)

-- Whatever the object, READ_AND_WRITE never changes the recorded writes.
pub read_and_write-writes :
    (gs i : ℕ) (obj : KvObject) (e : KvEntry) {obj' : KvObject}
    → record_internal gs i obj read_and_write e ≡ done obj'
    → obj'.writes ≡ obj.writes
unfolding record_internal
read_and_write-writes gs i obj e h = ground arith

-- No operation succeeds on an object as `register_new_object` leaves it: its arrays are NULL.
pub record_registered-ne-done :
    (gs i : ℕ) (kv_list : List KvObject) (op : MemOp) (e : KvEntry) (obj' : KvObject)
    → record_internal gs i (register_new_object kv_list).1 op e ≢ done obj'
unfolding record_internal register_new_object
record_registered-ne-done gs i kv_list read e obj' h = ground arith
record_registered-ne-done gs i kv_list write e obj' h = ground arith
record_registered-ne-done gs i kv_list read_and_write e obj' h = ground arith
