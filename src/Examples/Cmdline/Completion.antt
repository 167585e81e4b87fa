-- ===== src/Examples/Cmdline/Completion.antt =====
-- The token operations over the object list in rte/examples/cmdline/main.rs. `cmdline_isendoftoken` of
-- the C library and the UTF-8 test of Rust's library are parameters. A buffer is its bytes.
use rust_dpdk.Prelude.{
  ℕ, ◌+◌, ◌≤◌, ◌<◌, ◌≡◌, List, [], ◌∷◌, ◌++◌, Option, none, some, Bool, true, false, ◌&&◌, arith,
  ltb, if◌then◌else◌, ℤ, pos, negsuc, All, length, get_elem?, drop,
}
use rust_dpdk.Text.{codes}
use rust_dpdk.Examples.Cmdline.{Object, ObjectMap, lookup}
use rust_dpdk.Examples.Cmdline.Objects.{IsMap, lookup-nth}

-- How an operation ends: with its code and the object whose address it stores, with a panic, or by
-- reading past the end of the buffer.
pub data Parsed : Type 0 where
  returned : ℤ → Option Object → Parsed
  panics past_end : Parsed

-- The bytes up to the end of the token.
unfoldable pub token_of : (ℕ → Bool) → List ℕ → Option (List ℕ)
token_of is_end [] = none
token_of is_end (c ∷ s) = elim (is_end c) [
  | true ↦ some []
  | false ↦ elim (token_of is_end s) [ none ↦ none | some t ↦ some (c ∷ t) ]
]

-- What is done with the object that has been found; `stored` says whether `res` is not null.
found_object : Bool → List ℕ → Option Object → Parsed
found_object stored name none = returned (negsuc 0) none
found_object true name (some o) = returned (pos (length name)) (some o)
found_object false name (some o) = returned (pos (length name)) none

parse_token : (List ℕ → Bool) → ObjectMap → Bool → Option (List ℕ) → Parsed
unfolding lookup found_object
parse_token utf8 objs stored none = past_end
parse_token utf8 objs stored (some name) =
    if utf8 name then found_object stored name (lookup name objs) else panics

-- `parse_obj_list`; a pointer to an object has 8 bytes.
unfoldable pub parse_obj_list :
    (ℕ → Bool) → (List ℕ → Bool) → ObjectMap → Option (List ℕ) → Bool → ℕ → Parsed
unfolding token_of parse_token
parse_obj_list is_end utf8 objs none stored ressize = returned (negsuc 0) none
parse_obj_list is_end utf8 objs (some srcbuf) stored ressize =
    if stored && ltb ressize 8
    then returned (negsuc 0) none
    else parse_token utf8 objs stored (token_of is_end srcbuf)

unfoldable pub complete_get_nb_obj_list : ObjectMap → ℤ
complete_get_nb_obj_list objs = pos (length objs)

-- The name with its zero byte, written over the front of the buffer.
write_name : List ℕ → List ℕ → List ℕ
write_name name dstbuf = name ++ 0 ∷ drop (length name + 1) dstbuf

-- `complete_get_elt_obj_list`, with the code and the buffer behind it.
unfoldable pub complete_get_elt_obj_list : ObjectMap → ℕ → List ℕ → ℤ × List ℕ
unfolding write_name
complete_get_elt_obj_list objs idx dstbuf = elim (get_elem? objs idx) [
  | none ↦ (negsuc 0, dstbuf)
  | some e ↦
      if ltb (length e.0 + 1) (length dstbuf)
      then (pos 0, write_name e.0 dstbuf)
      else (negsuc 0, dstbuf)
]

unfoldable pub get_help_obj_list : List ℕ → ℤ × List ℕ
unfolding write_name
get_help_obj_list dstbuf =
    if ltb 9 (length dstbuf)
    then (pos 0, write_name (codes "Obj-List") dstbuf)
    else (negsuc 0, dstbuf)

token_of-name :
    (is_end : ℕ → Bool) (name rest : List ℕ)
    → is_end 0 ≡ true
    → All (λ c. is_end c ≡ false) name
    → token_of is_end (name ++ 0 ∷ rest) ≡ some name
unfolding token_of
token_of-name is_end [] rest h hs = ground (arith, h)
token_of-name is_end (c ∷ name) rest h (hc, hs) =
    ground (arith, hc, token_of-name is_end name rest h hs)

-- The text that completing the object list offers for its entry of a given index is parsed back as the
-- object of that entry: if a zero byte ends a token, the name has none of the bytes that end one and is
-- UTF-8, and the name fits the buffer with one byte to spare behind its zero.
pub completion_parsed :
    (is_end : ℕ → Bool) (utf8 : List ℕ → Bool) (objs : ObjectMap) (idx ressize : ℕ)
    (dstbuf : List ℕ) {name : List ℕ} {o : Object}
    → IsMap objs
    → get_elem? objs idx ≡ some (name, o)
    → is_end 0 ≡ true
    → All (λ c. is_end c ≡ false) name
    → utf8 name ≡ true
    → length name + 1 < length dstbuf
    → 8 ≤ ressize
    → ((complete_get_elt_obj_list objs idx dstbuf).0 ≡ pos 0)
      × (parse_obj_list is_end utf8 objs
            (some (complete_get_elt_obj_list objs idx dstbuf).1)
            true
            ressize
          ≡ returned (pos (length name)) (some o))
unfolding complete_get_elt_obj_list write_name parse_obj_list parse_token found_object
completion_parsed is_end utf8 objs idx ressize dstbuf {name} {o} valid here ends clean text fits
      room =
    let found = lookup-nth objs idx {k = name} {o = o} valid here in
    let token = token_of-name is_end name (drop (length name + 1) dstbuf) ends clean in
    (ground (arith, here, fits), grind (arith, here, fits, token, found, text, room))
