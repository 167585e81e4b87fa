-- ===== src/Tests/Buffers.antt =====
-- Runs of the wrappers, of packet buffers and of memory pools, and the version text.
use rust_dpdk.Prelude.{
  ltb, Bool, ◌<◌, ◌*◌, ℕ, suc, ◌+◌, ◌-◌, ◌%◌, ◌^◌, ◌≡◌, ◌≢◌, List, [], ◌∷◌, ◌++◌, Option, none,
  some, true, false, ◌==◌, ◌||◌, ℤ, pos, negsuc, if◌then◌else◌, All, length, refl, arith,
}
use rust_dpdk.Outcome.{done, halted, panicked}
use rust_dpdk.Errors.{ok, err, nul_error}
use rust_dpdk.Text.{codes}
use rust_dpdk.Utils.Strings.{as_cstring, to_cptr, read_at, to_cptr_dangles}
use rust_dpdk.Mbuf.Flags.{is_direct, has_cloned, has_ext_buf, raw_free_asserts, is_direct-inverted}
use rust_dpdk.Mbuf.Sharing.{
  Buffer, MbufFns, MbufLaws, Shared, Reach, here, next, clones, drops, clone, drop_mbuf,
  buffer_leaks,
}
use rust_dpdk.Mempool.{PoolFns, GetLaws}
use rust_dpdk.Mempool.Drained.{take_objects, objects, panics, get_drained}
use rust_dpdk.Mempool.Walk.{walk_objects, walk_pools, walks_free}
use rust_dpdk.Version.{Release, version}
use rust_dpdk.Mempool.Create.{opened, misread, freed, created, create_callbacks}
use rust_dpdk.Mbuf.ExtBuf.{IsSlice, new, new-IsSlice}

kni_clean : All (λ c. c ≢ 0) (codes "kni0")
kni_clean = ground arith

to_cptr_dangles_example :
    (to_cptr (codes "kni0") [] ≡ (ok 0, none ∷ []))
    × (read_at (to_cptr (codes "kni0") []).1 0 ≡ none)
    × (read_at (some (as_cstring (codes "kni0")) ∷ []) 0 ≡ some (codes "kni0"))
    × (to_cptr (codes "kni0" ++ 0 ∷ []) [] ≡ (err nul_error, []))
to_cptr_dangles_example = to_cptr_dangles (codes "kni0") [] [] kni_clean

is_direct-inverted_example :
    (is_direct (2 ^ 62) ≡ has_cloned (2 ^ 62) || has_ext_buf (2 ^ 62))
    × (raw_free_asserts 2 1 none 1 ≡ halted panicked)
is_direct-inverted_example = is_direct-inverted (2 ^ 62) 2 1 1 none refl

-- The functions as the C library has them for a buffer of one segment.
update : Buffer → ℤ → ℕ × Buffer
update m (pos n) = ((m.refcnt + n) % 2 ^ 16, record m { refcnt = (m.refcnt + n) % 2 ^ 16 })
update m (negsuc n) =
    ((m.refcnt + (65535 - n)) % 2 ^ 16, record m { refcnt = (m.refcnt + (65535 - n)) % 2 ^ 16 })

free_buffer : Buffer → Buffer
free_buffer m =
    if m.refcnt == 1
    then record { refcnt = 1; in_pool = true }
    else record m { refcnt = (m.refcnt + 65535) % 2 ^ 16 }

abbrev c_fns : MbufFns
c_fns = record { refcnt_update_fn = update; free_fn = free_buffer }

c_fns-MbufLaws : MbufLaws c_fns
unfolding update free_buffer
c_fns-MbufLaws = record {
  update_adds = λ m. refl;
  update_takes = λ m. refl;
  free_last = λ m e. ground (arith, e);
  free_shared = λ m e. ground (arith, e);
}

abbrev fresh : Buffer
fresh = record { refcnt = 1; in_pool = false }

abbrev last_state : Shared c_fns
last_state = record { handles = 0; buffer = drop_mbuf c_fns (drop_mbuf c_fns (clone c_fns fresh)) }

used_up : Reach c_fns (record { handles = 1; buffer = fresh }) last_state
used_up =
    next (next (next here (clones 0 fresh (omega arith))) (drops 1 (clone c_fns fresh)))
      (drops 0 (drop_mbuf c_fns (clone c_fns fresh)))

buffer_leaks_example :
    ((drop_mbuf c_fns (drop_mbuf c_fns (clone c_fns fresh))).in_pool ≡ false)
    × ((drop_mbuf c_fns (drop_mbuf c_fns (clone c_fns fresh))).refcnt ≡ 65535)
buffer_leaks_example = buffer_leaks c_fns c_fns-MbufLaws fresh {t = last_state} refl refl used_up

-- A pool is the list of its objects.
get_object : List ℕ → ℤ × Option ℕ × List ℕ
get_object [] = (negsuc 1, none, [])
get_object (p ∷ ps) = (pos 0, some p, ps)

abbrev list_pool : PoolFns (List ℕ)
list_pool = record {
  get_fn = get_object;
  get_bulk_fn = λ n ps. (negsuc 1, [], ps);
  put_fn = λ p ps. p ∷ ps;
  put_bulk_fn = λ qs ps. qs ++ ps;
  avail_count_fn = λ ps. length ps;
  size = λ ps. 4;
}

first_of : List ℕ → ℕ
first_of [] = 0
first_of (p ∷ ps) = p

list_pool-get_some :
    (s : List ℕ) (n : ℕ)
    → length s ≡ suc n
    → (s' : List ℕ) × (get_object s ≡ (pos 0, some (first_of s), s')) × (length s' ≡ n)
unfolding get_object first_of
list_pool-get_some [] n e = absurd (omega (arith, e))
list_pool-get_some (p ∷ ps) n e = (ps, refl, omega (arith, e))

list_pool-get_none : (s : List ℕ) → length s ≡ 0 → get_object s ≡ (negsuc 1, none, s)
unfolding get_object
list_pool-get_none [] e = refl
list_pool-get_none (p ∷ ps) e = absurd (omega (arith, e))

list_pool-GetLaws : GetLaws list_pool
list_pool-GetLaws = record {
  reachable = λ ps. length ps;
  reachable_avail = λ ps. omega arith;
  object = first_of;
  get_some = list_pool-get_some;
  get_none = list_pool-get_none;
}

get_drained_example :
    ((ps : List ℕ) × (take_objects list_pool 2 (64 ∷ 128 ∷ []) ≡ objects ps) × (length ps ≡ 2))
    × (take_objects list_pool 3 (64 ∷ 128 ∷ []) ≡ panics)
unfolding list_pool-GetLaws
get_drained_example = get_drained list_pool list_pool-GetLaws 2 3 (64 ∷ 128 ∷ []) refl (omega arith)

-- The release that the bindings name.
abbrev release_20_11 : Release
release_20_11 = record {
  ver_prefix = as_cstring (codes "DPDK");
  ver_suffix = as_cstring [];
  ver_year = 20;
  ver_month = 11;
  ver_minor = 0;
  ver_release = 99;
}

-- Its version text, which has the number 83 of the release behind the minor number.
release_20_11-version : version (λ s. true) release_20_11 ≡ done (codes "DPDK 20.11.083")
unfolding version as_cstring
release_20_11-version = refl

create_callbacks_example :
    (created 8 [] 0 0 (pos 0) 0 [] 1 2 5 true true ≡ misread)
    × (created 8 [] 0 0 (pos 0) 0 [] 2 2 5 true false ≡ opened (none ∷ []))
    × (created 8 [] 0 0 (pos 0) 0 [] 1 2 1 false true ≡ opened (none ∷ []))
    × (created 8 [] 0 0 (pos 0) 0 [] 1 2 7 false true ≡ freed)
    × (created 8 [] 0 0 (pos 0) 0 [] 1 2 5 false false ≡ opened [])
create_callbacks_example = create_callbacks 8 [] 0 0 (pos 0) 0 [] 1 2 5 true (omega arith)

-- A library that counts as the manual says.
prefree : Buffer → Bool × Buffer
prefree m =
    if m.refcnt == 1 then (true, m) else (false, record m { refcnt = (m.refcnt + 65535) % 2 ^ 16 })

abbrev two_handles : Buffer
two_handles = record { refcnt = 2; in_pool = false }

-- The shared data take 64 bytes at the end of the room.
room_for : ℕ → Option ℕ × ℕ
room_for len = if ltb len 64 then (none, len) else (some (len - 64), len - 64)

room_for-reduces : (len p : ℕ) → (room_for len).0 ≡ some p → (room_for len).1 < len
unfolding room_for
room_for-reduces len p e = ground (arith, e)

new-IsSlice_example :
    IsSlice 100 (new room_for (pos 0) 100)
    × (new room_for (pos 0) (100 + 1 * 2 ^ 16) ≡ new room_for (pos 0) 100)
new-IsSlice_example = new-IsSlice room_for (record { reduces = room_for-reduces }) (pos 0) 100 1

-- A callback that adds what it is given up.
abbrev add_up : ℕ → Option ℕ → ℕ → ℕ → ℕ
add_up pool arg obj index = pool + obj + index

abbrev same_pool : ℕ → Option ℕ → ℕ
same_pool pool arg = pool

walks_free_example :
    (walk_objects add_up (some 1) ((2, 3, 4) ∷ []) [] ≡ some (9 ∷ [], none ∷ []))
    × (walk_objects add_up (some 1) ((2, 3, 4) ∷ (2, 5, 6) ∷ []) [] ≡ none)
    × (walk_objects add_up (some 1) [] []
        ≡ some ([], some (record { callback = add_up; arg = some 1 }) ∷ []))
    × (walk_pools same_pool (some 1) (7 ∷ 8 ∷ []) [] ≡ none)
walks_free_example = walks_free add_up same_pool (some 1) (2, 3, 4) (2, 5, 6) [] 7 8 [] [] []
