-- ===== src/Cmdline/Insts.antt =====
-- The instructions of rte/src/cmdline.rs: what `inst` and `new` lay out for C code, which reads an array
-- of pointers up to its null, and the boxed handlers.
use rust_dpdk.Prelude.{ℕ, ◌≡◌, ◌≢◌, List, [], ◌∷◌, ◌++◌, Option, none, some, map, refl, arith, All}
use rust_dpdk.Cmdline.Tokens.{Token, as_raw, str_token}
use rust_dpdk.Utils.Callbacks.{CallbackContext, Contexts, stub, handed, handed-one, handed-more}
use rust_dpdk.Utils.Strings.{c_text, as_cstring, as_cstring_read}

-- What C code reads of an array of pointers: those before the first null; `none` is a read past the end.
unfoldable pub c_array : List (Option ℕ) → Option (List ℕ)
c_array [] = none
c_array (none ∷ ps) = some []
c_array (some p ∷ ps) = elim (c_array ps) [ none ↦ none | some qs ↦ some (p ∷ qs) ]

-- `calloc(1, len + 1)` with a copy of the text: `TOKEN_STRING_INITIALIZER!` and the help of `inst`.
unfoldable pub calloc_text : List ℕ → List ℕ
calloc_text s = s ++ 0 ∷ []

-- `ffi::cmdline_inst` as `inst` fills it. The room behind the fixed fields is that of the tokens.
pub record Inst : Type 0 where
  pub help_str : List ℕ
  pub tokens : List (Option ℕ)

unfoldable pub inst : List ℕ → List Token → Inst
unfolding calloc_text as_raw
inst help tokens = record {
  help_str = calloc_text help;
  tokens = map (λ t. some (as_raw t)) tokens;
}

-- `new`: the array of the instructions' addresses has room for one more, which `calloc` clears.
unfoldable pub new : List ℕ → List (Option ℕ)
new insts = map some insts ++ none ∷ []

new-c_array : (insts : List ℕ) → c_array (new insts) ≡ some insts
unfolding c_array new
new-c_array [] = refl
new-c_array (i ∷ is) = ground (arith, new-c_array is)

open_array : (tokens : List Token) → c_array (map (λ t. some (as_raw t)) tokens) ≡ none
unfolding c_array
open_array [] = refl
open_array (t ∷ ts) = ground (arith, open_array ts)

-- C code that reads the instructions of a command line gets all of them and stops at the end; reading
-- the tokens of an instruction it runs past the end of its memory, whatever the tokens are.
pub inst_unterminated :
    (help : List ℕ) (tokens : List Token) (insts : List ℕ)
    → All (λ c. c ≢ 0) help
    → (c_array (new insts) ≡ some insts)
      × (c_text (inst help tokens).help_str ≡ some help)
      × (c_array (inst help tokens).tokens ≡ none)
unfolding inst calloc_text as_cstring
inst_unterminated help tokens insts h =
    (new-c_array insts, (as_cstring_read help [] h).0, open_array tokens)

-- `Drop for Token`: what is freed; `free` of a null pointer does nothing.
unfoldable pub drop_token : Token → List ℕ
drop_token (str_token hdr (some p)) = p ∷ []
drop_token _ = []

module _ {D X R : Type 0} where
  -- `_inst_handler_stub`: a handler gets the parsed values and its data; the command line is left out.
  unfoldable pub inst_handler_stub :
      ℕ
      → X
      → Contexts (X → Option D → R) (Option D)
      → Option (R × Contexts (X → Option D → R) (Option D))
  unfolding stub
  inst_handler_stub = stub (λ handler arg x. handler x arg)

  -- A command that the user enters once calls its handler; entering the same command a second time
  -- uses the handler's box after it has been freed, whatever else is entered.
  pub entered_twice :
      (c : CallbackContext (X → Option D → R) (Option D)) (x y : X) (lines : List X)
      (boxes : Contexts (X → Option D → R) (Option D))
      → (handed inst_handler_stub c (x ∷ []) boxes
          ≡ some (c.callback x c.arg ∷ [], boxes ++ none ∷ []))
        × (handed inst_handler_stub c (x ∷ y ∷ lines) boxes ≡ none)
  unfolding inst_handler_stub
  entered_twice c x y lines boxes = (
    handed-one (λ handler arg x. handler x arg) c x boxes,
    handed-more (λ handler arg x. handler x arg) c x y lines boxes,
  )
