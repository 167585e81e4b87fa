-- ===== src/Tests/Cmdline.antt =====
-- Runs of the command line and of the example cmdline.
use rust_dpdk.Prelude.{
  ℕ, ◌≡◌, ◌≢◌, List, [], ◌∷◌, none, some, Bool, true, false, ◌==◌, ◌||◌, pos, map, All, refl, arith,
  filter, range_from,
}
use rust_dpdk.Outcome.{done}
use rust_dpdk.Dpdk
use rust_dpdk.Dpdk.{History}
use rust_dpdk.Errors.{ok}
use rust_dpdk.Text.{codes}
use rust_dpdk.Text.Split.{split}
use rust_dpdk.Text.Decimal.{decimal}
use rust_dpdk.Utils.Strings.{c_text, has_nul}
use rust_dpdk.Cmdline.{
  owned, poll, complete, interact, as_raw, init, finished, try_to_complete, readline_status_from,
  complete_status_from, complete_state_number,
}
use rust_dpdk.Errors.{rte_check_value}
use rust_dpdk.Cmdline.PortList.{to_string, to_portlist, mask_of, to_string-split}
use rust_dpdk.Cmdline.Tokens.{str_token, IpNetAddr, IpAddr}
use rust_dpdk.Cmdline.Insts.{inst, new, c_array, inst_unterminated}
use rust_dpdk.Cmdline.Scope.{statuses_lost}
use rust_dpdk.Examples.Cmdline.{Object, ObjectMap, lookup}
use rust_dpdk.Examples.Cmdline.Objects.{IsMap}
use rust_dpdk.Examples.Cmdline.Completion.{
  complete_get_elt_obj_list, parse_obj_list, returned, completion_parsed,
}
use rust_dpdk.Examples.Cmdline.Commands.{
  Command, fresh, show_command, del_command, add_command, run_commands,
}
use rust_dpdk.Tests.World.{obedient}

ports_text : to_string 37 ≡ codes "0,2,5"
unfolding to_string filter range_from
ports_text = refl

to_string-split_example :
    (split 44 (to_string 37) ≡ map decimal (to_portlist 37)) × (mask_of (to_portlist 37) ≡ 37)
to_string-split_example = to_string-split 37 (omega arith) (λ e. absurd (omega (arith, e)))

polled_init : (poll obedient (owned 4096) []).0 ≡ done (ok (some init))
unfolding poll as_raw rte_check_value readline_status_from
polled_init = refl

completed_once :
    (complete obedient (owned 4096) (codes "sh") try_to_complete 16 []).0
    ≡ done (ok (some finished))
unfolding complete as_raw rte_check_value complete_status_from has_nul complete_state_number
completed_once = refl

statuses_lost_example : (some init ≡ some init) × (some finished ≡ some finished)
statuses_lost_example =
    statuses_lost obedient (owned 4096) (codes "sh") try_to_complete 16 [] {s = some init}
      {t = some finished} polled_init completed_once

interacted :
    interact obedient (owned 4096) (Dpdk.cmdline_stdin_new 8 (codes "example> ") ∷ [])
    ≡ (done tt, Dpdk.cmdline_stdin_new 8 (codes "example> ") ∷ Dpdk.cmdline_interact 4096 ∷ [])
unfolding interact as_raw
interacted = refl

prompt_clean : has_nul (codes "example> ") ≡ false
unfolding has_nul
prompt_clean = refl

quit_clean : All (λ c. c ≢ 0) (codes "quit")
quit_clean = ground arith

inst_unterminated_example :
    (c_array (new (1 ∷ 2 ∷ [])) ≡ some (1 ∷ 2 ∷ []))
    × (c_text (inst (codes "quit") (str_token 64 (some 32) ∷ [])).help_str ≡ some (codes "quit"))
    × (c_array (inst (codes "quit") (str_token 64 (some 32) ∷ [])).tokens ≡ none)
inst_unterminated_example =
    inst_unterminated (codes "quit") (str_token 64 (some 32) ∷ []) (1 ∷ 2 ∷ []) quit_clean

abbrev some_ip : IpNetAddr
some_ip = record { family = 2; addr = 10 ∷ 0 ∷ 0 ∷ 1 ∷ [] }

abbrev web : Object
web = record { name = codes "web"; ip = IpAddr.v4 (10 ∷ 0 ∷ 0 ∷ 1 ∷ []) }

abbrev one_object : ObjectMap
one_object = (codes "web", web) ∷ []

abbrev ends_token : ℕ → Bool
ends_token c = c == 0 || c == 32

one_object-IsMap : IsMap one_object
unfolding IsMap lookup
one_object-IsMap = (refl, refl, tt)

completion_parsed_example :
    ((complete_get_elt_obj_list one_object 0 (9 ∷ 9 ∷ 9 ∷ 9 ∷ 9 ∷ [])).0 ≡ pos 0)
    × (parse_obj_list ends_token
          (λ s. true)
          one_object
          (some (complete_get_elt_obj_list one_object 0 (9 ∷ 9 ∷ 9 ∷ 9 ∷ 9 ∷ [])).1)
          true
          8
        ≡ returned (pos 3) (some web))
completion_parsed_example =
    completion_parsed ends_token (λ s. true) one_object 0 8 (9 ∷ 9 ∷ 9 ∷ 9 ∷ 9 ∷ [])
      {name = codes "web"} {o = web} one_object-IsMap refl refl (refl, (refl, (refl, tt))) refl
      (omega arith) (omega arith)

abbrev session : List Command
session =
    add_command (codes "web") some_ip
    ∷ add_command (codes "web") some_ip
    ∷ show_command (codes "web")
    ∷ del_command (codes "web")
    ∷ show_command (codes "web")
    ∷ []

abbrev show_ip : IpAddr → List ℕ
show_ip ip = codes "10.0.0.1"

-- The second `add` of the session enters the freed handler.
session_freed : (run_commands obedient show_ip (owned 4096) session fresh [] []).0 ≡ done none
unfolding run_commands
session_freed = refl
