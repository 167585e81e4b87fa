-- ===== src/Mempool/Create.antt =====
-- `create` and `create_empty` of rte/src/mempool.rs: the contexts that `create` boxes for its callbacks,
-- and the stubs that C code opens them with. A type is its number.
use rust_dpdk.Prelude.{
  ℕ, zero, suc, ◌%◌, ◌^◌, ◌≡◌, ◌≢◌, List, [], ◌∷◌, ◌++◌, Option, none, some, Bool, true, false,
  ◌==◌, ℤ, length, set, get_elem?, set-last, arith, append_assoc, refl,
}

-- The boxed contexts, by the type of their argument; `none` is one that is freed.
abbrev pub Boxes : Type 0
Boxes = List (Option ℕ)

-- The arguments of `rte_mempool_create`. A callback is the type that its stub is made for, and a context
-- the place of its box; null is `none`.
pub record CreateArgs : Type 0 where
  pub name : List ℕ
  pub n : ℕ
  pub elt_size : ℕ
  pub cache_size : ℕ
  pub private_data_size : ℕ
  pub mp_init : Option ℕ
  pub mp_init_ctx : Option ℕ
  pub obj_init : Option ℕ
  pub obj_init_ctx : Option ℕ
  pub socket_id : ℤ
  pub flags : ℕ

-- `if let Some(callback) = …`, where the callback takes an argument of the type `ty`.
box_context : Bool → ℕ → Boxes → Option ℕ × Boxes
box_context false ty boxes = (none, boxes)
box_context true ty boxes = (some (length boxes), boxes ++ some ty ∷ [])

-- `if is_none() { None } else { Some(stub::<T>) }`.
stub_for : Bool → ℕ → Option ℕ
stub_for false ty = none
stub_for true ty = some ty

-- What `create` passes on, for its types `M`, `T` and the size of `O`; `has_mp` and `has_obj` say whether
-- the callbacks are there. The stub of the constructor is `mp_init_stub::<T>`.
unfoldable pub create :
    ℕ → ℕ → ℕ → List ℕ → ℕ → ℕ → ℕ → Bool → Bool → ℤ → ℕ → Boxes → CreateArgs × Boxes
unfolding box_context stub_for
create m t size_o name n cache_size private_data_size has_mp has_obj socket_id flags boxes =
    let (mp_ctx, boxes') = box_context has_mp m boxes in
    let (obj_ctx, boxes'') = box_context has_obj t boxes' in
    (
      record {
        name = name;
        n = n;
        elt_size = size_o % 2 ^ 32;
        cache_size = cache_size;
        private_data_size = private_data_size;
        mp_init = stub_for has_mp t;
        mp_init_ctx = mp_ctx;
        obj_init = stub_for has_obj t;
        obj_init_ctx = obj_ctx;
        socket_id = socket_id;
        flags = flags;
      },
      boxes'',
    )

-- `create_empty`.
unfoldable pub create_empty : ℕ → List ℕ → ℕ → ℕ → ℕ → ℤ → ℕ → CreateArgs
create_empty size_o name n cache_size private_data_size socket_id flags = record {
  name = name;
  n = n;
  elt_size = size_o % 2 ^ 32;
  cache_size = cache_size;
  private_data_size = private_data_size;
  mp_init = none;
  mp_init_ctx = none;
  obj_init = none;
  obj_init_ctx = none;
  socket_id = socket_id;
  flags = flags;
}

-- What a stub comes to: the boxes behind it, the use of a box as one of another type, or of a freed one.
pub data Opened : Type 0 where
  opened : Boxes → Opened
  misread freed : Opened

-- A stub for the type `ty`: it takes the box back, and frees it.
unfoldable pub run_stub : ℕ → ℕ → Boxes → Opened
run_stub ty p boxes = elim (get_elem? boxes p) [
  | none ↦ freed
  | some none ↦ freed
  | some (some made) ↦ elim (made == ty) [ true ↦ opened (set boxes p none) | false ↦ misread ]
]

-- C code that runs a callback for as many objects as there are.
unfoldable pub run_stubs : ℕ → Option ℕ → Option ℕ → Boxes → Opened
unfolding run_stub
run_stubs zero stub ctx boxes = opened boxes
run_stubs (suc k) none ctx boxes = opened boxes
run_stubs (suc k) (some ty) none boxes = freed
run_stubs (suc k) (some ty) (some p) boxes = elim (run_stub ty p boxes) [
  | opened boxes' ↦ run_stubs k (some ty) (some p) boxes'
  | misread ↦ misread
  | freed ↦ freed
]

-- `rte_mempool_create`, as its manual says: the constructor once, and then the objects of the pool.
unfoldable pub run_create : CreateArgs × Boxes → Opened
unfolding run_stubs
run_create (args, boxes) = elim (run_stubs 1 args.mp_init args.mp_init_ctx boxes) [
  | opened boxes' ↦ run_stubs args.n args.obj_init args.obj_init_ctx boxes'
  | misread ↦ misread
  | freed ↦ freed
]

get_elem?-middle : (xs ys : Boxes) (x : Option ℕ) → get_elem? (xs ++ x ∷ ys) (length xs) ≡ some x
get_elem?-middle [] ys x = refl
get_elem?-middle (z ∷ xs) ys x = get_elem?-middle xs ys x

-- A stub at the place of a box: of another type, of its own, and freed.
run_stub-other :
    (made ty : ℕ) (xs ys : Boxes)
    → made ≢ ty
    → run_stub ty (length xs) (xs ++ some made ∷ ys) ≡ misread
unfolding run_stub
run_stub-other made ty xs ys h = ground (arith, get_elem?-middle xs ys (some made))

run_stub-own :
    (ty : ℕ) (xs : Boxes) → run_stub ty (length xs) (xs ++ some ty ∷ []) ≡ opened (xs ++ none ∷ [])
unfolding run_stub
run_stub-own ty xs = ground (arith, get_elem?-middle xs [] (some ty), set-last xs (some ty) none)

run_stub-freed : (ty : ℕ) (xs : Boxes) → run_stub ty (length xs) (xs ++ none ∷ []) ≡ freed
unfolding run_stub
run_stub-freed ty xs = ground (arith, get_elem?-middle xs [] none)

none_run : (k : ℕ) (ctx : Option ℕ) (boxes : Boxes) → run_stubs k none ctx boxes ≡ opened boxes
unfolding run_stubs
none_run zero ctx boxes = refl
none_run (suc k) ctx boxes = refl

module _ (size_o : ℕ) (name : List ℕ) (cache_size private_data_size : ℕ) (socket_id : ℤ) (flags : ℕ)
    (boxes : Boxes) where
  -- What becomes of the callbacks of a pool with `n` objects whose arguments have the types `m` and `t`,
  -- and whose constructor and object callback are there or not.
  abbrev pub created : ℕ → ℕ → ℕ → Bool → Bool → Opened
  unfolding create run_create
  created m t n has_mp has_obj =
      run_create
        (create m t size_o name n cache_size private_data_size has_mp has_obj socket_id flags boxes)

  constructor_misread : (m t k : ℕ) (has_obj : Bool) → m ≢ t → created m t k true has_obj ≡ misread
  unfolding create run_create run_stubs
  constructor_misread m t k false h = ground (arith, run_stub-other m t boxes [] h)
  constructor_misread m t k true h = ground (
    arith,
    append_assoc boxes (some m ∷ []) (some t ∷ []),
    run_stub-other m t boxes (some t ∷ []) h,
  )

  -- A constructor whose argument has another type than that of the object callback is run with its
  -- context read as one of that type, whatever else is asked for. With the same type it runs, and its
  -- context is freed. An object callback runs for one object, and for a second one uses its context
  -- after it has been freed.
  pub create_callbacks :
      (m t k : ℕ) (has_obj : Bool)
      → m ≢ t
      → (created m t k true has_obj ≡ misread)
        × (created t t k true false ≡ opened (boxes ++ none ∷ []))
        × (created m t 1 false true ≡ opened (boxes ++ none ∷ []))
        × (created m t (suc (suc k)) false true ≡ freed)
        × (created m t k false false ≡ opened boxes)
  unfolding create run_create run_stubs
  create_callbacks m t k has_obj h = (
    constructor_misread m t k has_obj h,
    ground (arith, run_stub-own t boxes, none_run k none (boxes ++ none ∷ [])),
    ground (arith, run_stub-own t boxes),
    ground (arith, run_stub-own t boxes, run_stub-freed t boxes),
    none_run k none boxes,
  )
