-- ===== src/Pica/Hashtable/Defs.antt =====
-- `myhash`, `reg_hashtable`, `find_hashtable` and `pica_build_hashtable` of src/libpica_clnt.c, and
-- the structures of src/libpica_clnt_internal.h. `MurmurHash3_x86_32` is a parameter, the `void *`
-- of an entry a type. The first entry of a chain is the one that the slot embeds, the others hang
-- on its `next`; the chain of a zeroed slot is empty.
use portable_tls_ra.Base.{
  ℕ, zero, suc, ◌/◌, ◌%◌, ◌^◌, bit_xor, Bool, ◌&&◌, Option, none, some, List, [], ◌∷◌, Str,
  bytes_eq, ◌==◌, if◌then◌else◌, replicate, get_or, set, ◌>>=◌,
}
use portable_tls_ra.Pica.Types.{Procinfo, pica_ent_conf_procinfo}

pub record Hentry (A : Type 0) : Type 0 where
  pub path : Str
  pub type : ℕ
  pub addr : A

pub record Slot (A : Type 0) : Type 0 where
  pub hash : ℕ
  pub chain : List (Hentry A)

abbrev pub htable_sz : ℕ
htable_sz = 1024

abbrev pub empty_slot : {A : Type 0} → Slot A
empty_slot = record { hash = 0; chain = [] }

-- The static array, all zero; also what `memset` leaves.
unfoldable pub empty_htable : {A : Type 0} → List (Slot A)
empty_htable = replicate htable_sz empty_slot

-- `ph->type == which && !strcmp(ph->path, path)`
unfoldable pub is_entry : {A : Type 0} → ℕ → Str → Hentry A → Bool
is_entry which path e = e.type == which && bytes_eq e.path path

-- The loop along `next`, which ends with the new entry hung on the last one.
unfoldable pub reg_next : {A : Type 0} → ℕ → A → Str → List (Hentry A) → List (Hentry A)
unfolding is_entry
reg_next which addr path [] = record { path = path; type = which; addr = addr } ∷ []
reg_next which addr path (e ∷ rest) =
    if is_entry which path e then e ∷ rest else e ∷ reg_next which addr path rest

-- The branch for a slot in use: the embedded entry first, then the loop.
unfoldable pub reg_conflict : {A : Type 0} → ℕ → A → Str → List (Hentry A) → List (Hentry A)
unfolding is_entry reg_next
reg_conflict which addr path [] = []
reg_conflict which addr path (e ∷ rest) =
    if is_entry which path e then e ∷ rest else e ∷ reg_next which addr path rest

-- The loop of `find_hashtable`.
unfoldable pub find_chain : {A : Type 0} → Str → ℕ → List (Hentry A) → Option A
unfolding is_entry
find_chain path which [] = none
find_chain path which (e ∷ rest) =
    if is_entry which path e then some e.addr else find_chain path which rest

-- The two branches on a slot: a free one takes the hash and the entry.
unfoldable pub reg_slot : {A : Type 0} → ℕ → ℕ → A → Str → Slot A → Slot A
unfolding reg_conflict
reg_slot hash which addr path slot =
    if slot.hash == 0
    then record { hash = hash; chain = record { path = path; type = which; addr = addr } ∷ [] }
    else record slot { chain = reg_conflict which addr path slot.chain }

unfoldable pub find_slot : {A : Type 0} → Str → ℕ → Slot A → Option A
unfolding find_chain
find_slot path which slot = if slot.hash == 0 then none else find_chain path which slot.chain

module _ (murmur : Str → ℕ → ℕ) where
  unfoldable pub myhash : Str → ℕ
  myhash path =
      let h = murmur path 0 in
      let folded = bit_xor (h / 2 ^ 16) (h % 2 ^ 16) % htable_sz in
      if folded == 0 then 1 else folded

  module _ {A : Type 0} where
    unfoldable pub reg_hashtable : ℕ → A → Str → List (Slot A) → List (Slot A)
    reg_hashtable which addr path t =
        let hash = myhash path in
        set t hash (reg_slot hash which addr path (get_or t hash empty_slot))

    unfoldable pub find_hashtable : Str → ℕ → List (Slot A) → Option A
    find_hashtable path which t = find_slot path which (get_or t (myhash path) empty_slot)

  -- The loop of `pica_build_hashtable` and of `pica_read_config`: `none` if a path is NULL or the
  -- array is too short. The address of an entry is the process itself.
  unfoldable pub reg_procs :
      ℕ → List Procinfo → List (Slot Procinfo) → Option (List (Slot Procinfo))
  reg_procs zero ps t = some t
  reg_procs (suc n) [] t = none
  reg_procs (suc n) (p ∷ ps) t =
      p.path >>= λ path. reg_procs n ps (reg_hashtable pica_ent_conf_procinfo p path t)

  -- `memset`, and the loop over the configured processes.
  unfoldable pub pica_build_hashtable : List Procinfo → ℕ → Option (List (Slot Procinfo))
  unfolding reg_procs empty_htable
  pica_build_hashtable procinfo entries = reg_procs entries procinfo empty_htable
