-- ===== src/Pica/Hashtable/Refines.antt =====
-- The hash table refines a finite map from kinds and paths.
use portable_tls_ra.Base.{
  ℕ, ◌<◌, ◌≡◌, refl, ◌≢◌, ◌&&◌, Option, none, some, List, [], ◌∷◌, Str, bytes_eq, bytes_eq_iff,
  ◌==◌, ==_iff, if◌then◌else◌, length, get_or, set, get_or-set, length-set, length-replicate,
  get_or-replicate, arith, Bool-cases, inl, inr,
}
use portable_tls_ra.Pica.Hashtable.Defs.{
  Hentry, Slot, htable_sz, empty_slot, empty_htable, is_entry, reg_next, reg_conflict, find_chain,
  myhash, reg_slot, find_slot, reg_hashtable, find_hashtable,
}

-- The result of `find` after `(which, path)` was offered with `addr`: what was there stays.
abbrev pub registered : {A : Type 0} → ℕ → A → Str → (Str → ℕ → Option A) → Str → ℕ → Option A
registered which addr path find q k = elim (find q k) [
  | some a ↦ some a
  | none ↦ if which == k && bytes_eq path q then some addr else none
]

find_chain-reg_next :
    {A : Type 0} (which : ℕ) (addr : A) (path q : Str) (k : ℕ) (c : List (Hentry A))
    → find_chain q k (reg_next which addr path c)
      ≡ registered which addr path (λ q' k'. find_chain q' k' c) q k
unfolding find_chain reg_next is_entry
find_chain-reg_next which addr path q k [] = ground arith
find_chain-reg_next which addr path q k (e ∷ c) = ground (
  arith,
  find_chain-reg_next which addr path q k c,
  bytes_eq_iff e.path path,
  bytes_eq_iff e.path q,
  bytes_eq_iff path q,
)

find_chain-reg_conflict :
    {A : Type 0} (which : ℕ) (addr : A) (path q : Str) (k : ℕ) (c : List (Hentry A))
    → 0 < length c
    → find_chain q k (reg_conflict which addr path c)
      ≡ registered which addr path (λ q' k'. find_chain q' k' c) q k
unfolding find_chain reg_conflict is_entry
find_chain-reg_conflict which addr path q k [] h = absurd (omega arith)
find_chain-reg_conflict which addr path q k (e ∷ c) h = ground (
  arith,
  find_chain-reg_next which addr path q k c,
  bytes_eq_iff e.path path,
  bytes_eq_iff e.path q,
  bytes_eq_iff path q,
)

length-reg_conflict :
    {A : Type 0} (which : ℕ) (addr : A) (path : Str) (c : List (Hentry A))
    → 0 < length c
    → 0 < length (reg_conflict which addr path c)
unfolding reg_conflict is_entry
length-reg_conflict which addr path [] h = h
length-reg_conflict which addr path (e ∷ c) h = ground arith

-- A slot that is in use has an entry.
abbrev pub IsSlot : {A : Type 0} → Slot A → Type 0
IsSlot s = s.hash ≢ 0 → 0 < length s.chain

-- The array keeps its size, and its slots hold what their `hash` says.
pub record IsHtable {A : Type 0} (t : List (Slot A)) : Type 0 where
  pub size : length t ≡ htable_sz
  pub slots : (i : ℕ) → IsSlot (get_or t i empty_slot)

-- The zeroed array is a hash table.
pub empty_htable-IsHtable : {A : Type 0} → IsHtable {A = A} empty_htable
unfolding empty_htable
empty_htable-IsHtable {A} = record {
  size = length-replicate htable_sz (empty_slot {A = A});
  slots = λ i. rw (get_or-replicate htable_sz i (empty_slot {A = A})) (λ n. absurd (n refl));
}

module _ (murmur : Str → ℕ → ℕ) where
  -- The hash is an index of the array, and never the value that marks a free slot.
  pub myhash_bounds : (path : Str) → (0 < myhash murmur path) × (myhash murmur path < htable_sz)
  unfolding myhash
  myhash_bounds path = ground arith

  pub find_empty :
      {A : Type 0} (path : Str) (which : ℕ)
      → find_hashtable murmur {A = A} path which empty_htable ≡ none
  unfolding find_hashtable find_slot empty_htable
  find_empty {A} path which =
      rw (get_or-replicate htable_sz (myhash murmur path) (empty_slot {A = A}))

  find_slot-same :
      {A : Type 0} (which : ℕ) (addr : A) (path q : Str) (k : ℕ) (s : Slot A) (h : ℕ)
      → 0 < h
      → IsSlot s
      → find_slot q k (reg_slot h which addr path s)
        ≡ registered which addr path (λ q' k'. find_slot q' k' s) q k
  unfolding find_slot reg_slot
  find_slot-same which addr path q k s h pos ok =
      ground (arith, find_chain-reg_conflict which addr path q k s.chain, bytes_eq_iff path q)

  module _ {A : Type 0} (which : ℕ) (addr : A) (path : Str) (t : List (Slot A))
      (ok : IsHtable t) where
    slot_at :
        (i : ℕ) (s : Slot A)
        → get_or (set t (myhash murmur path) s) i empty_slot
          ≡ (if myhash murmur path == i then s else get_or t i empty_slot)
    slot_at i s =
        get_or-set t (myhash murmur path) i s empty_slot (rw ok.size (myhash_bounds path).1)

    -- Registration keeps the shape of the table.
    pub reg_hashtable-IsHtable : IsHtable (reg_hashtable murmur which addr path t)
    unfolding reg_hashtable reg_slot
    reg_hashtable-IsHtable = record {
      size = rw length-set ok.size;
      slots = λ i. rw slot_at (
          ground (
            arith,
            ok.slots i,
            ok.slots (myhash murmur path),
            length-reg_conflict which addr path (get_or t (myhash murmur path) empty_slot).chain,
          ));
    }

    -- After a registration the table finds what it found before, and beside that the new address
    -- under its own kind and path, if those were free: the first registration of a key stays.
    pub find-reg_hashtable :
        (q : Str) (k : ℕ)
        → find_hashtable murmur q k (reg_hashtable murmur which addr path t)
          ≡ registered which addr path (λ q' k'. find_hashtable murmur q' k' t) q k
    unfolding reg_hashtable find_hashtable
    find-reg_hashtable q k = rw slot_at (elim (Bool-cases (myhash murmur path == myhash murmur q)) [
      | inl e ↦
          let same = (==_iff (myhash murmur path) (myhash murmur q)).0 e in
          rw (e, same)
            (find_slot-same which addr path q k (get_or t (myhash murmur q) empty_slot)
              (myhash murmur q) (myhash_bounds q).0 (ok.slots (myhash murmur q)))
      | inr n ↦ rw n (ground (arith, bytes_eq_iff path q))
    ])
