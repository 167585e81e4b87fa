-- ===== src/Examples/Ethtool/Prompt.antt =====
-- The instructions that `main` of rte/examples/ethtool/ethapp.rs lays out, in the order of its array.
use rust_dpdk.Prelude.{◌≡◌, List, [], ◌∷◌, Bool, true, false, All, arith}
use rust_dpdk.Text.{codes}
use rust_dpdk.Cmdline.Macros.{token_string, token_num, token_etheraddr, uint16}
use rust_dpdk.Cmdline.Lines.{Instruction}

-- The handlers.
pub data Handler : Type 0 where
  quit drvinfo link open_port stop_port rxmode portstats mtu_list mtu_get mtu_set mac_list mac_get
        mac_set mac_validate vlan_change :
      Handler

-- The handlers that unwrap the application's configuration.
unfoldable pub unwraps : Handler → Bool
unwraps Handler.open_port = true
unwraps Handler.stop_port = true
unwraps Handler.mtu_list = true
unwraps Handler.mac_list = true
unwraps Handler.mac_set = true
unwraps _ = false

unfoldable pub pcmd_quit : Instruction Handler
unfolding token_string
pcmd_quit = record {
  handler = Handler.quit;
  has_data = false;
  help = codes "quit\n     Exit program";
  tokens = token_string (codes "cmd") (codes "quit") ∷ [];
}

unfoldable pub pcmd_drvinfo : Instruction Handler
unfolding token_string
pcmd_drvinfo = record {
  handler = Handler.drvinfo;
  has_data = false;
  help = codes "drvinfo\n     Print driver info";
  tokens = token_string (codes "cmd") (codes "drvinfo") ∷ [];
}

unfoldable pub pcmd_link : Instruction Handler
unfolding token_string
pcmd_link = record {
  handler = Handler.link;
  has_data = false;
  help = codes "link\n     Print port link states";
  tokens = token_string (codes "cmd") (codes "link") ∷ [];
}

unfoldable pub pcmd_open_port : Instruction Handler
unfolding token_num token_string
pcmd_open_port = record {
  handler = Handler.open_port;
  has_data = true;
  help = codes "open <port_id>\n     Open port";
  tokens = token_string (codes "cmd") (codes "open") ∷ token_num (codes "port") uint16 ∷ [];
}

unfoldable pub pcmd_stop_port : Instruction Handler
unfolding token_num token_string
pcmd_stop_port = record {
  handler = Handler.stop_port;
  has_data = true;
  help = codes "stop <port_id>\n     Stop port";
  tokens = token_string (codes "cmd") (codes "stop") ∷ token_num (codes "port") uint16 ∷ [];
}

unfoldable pub pcmd_rxmode : Instruction Handler
unfolding token_num token_string
pcmd_rxmode = record {
  handler = Handler.rxmode;
  has_data = false;
  help = codes "rxmode <port_id>\n     Toggle port Rx mode";
  tokens = token_string (codes "cmd") (codes "rxmode") ∷ token_num (codes "port") uint16 ∷ [];
}

unfoldable pub pcmd_portstats : Instruction Handler
unfolding token_num token_string
pcmd_portstats = record {
  handler = Handler.portstats;
  has_data = false;
  help = codes "portstats <port_id>\n     Print port eth statistics";
  tokens = token_string (codes "cmd") (codes "portstats") ∷ token_num (codes "port") uint16 ∷ [];
}

unfoldable pub pcmd_mtu_list : Instruction Handler
unfolding token_string
pcmd_mtu_list = record {
  handler = Handler.mtu_list;
  has_data = true;
  help = codes "mtu\n     List MTU";
  tokens = token_string (codes "cmd") (codes "mtu") ∷ [];
}

unfoldable pub pcmd_mtu_get : Instruction Handler
unfolding token_num token_string
pcmd_mtu_get = record {
  handler = Handler.mtu_get;
  has_data = false;
  help = codes "mtu <port_id>\n     Show MTU";
  tokens = token_string (codes "cmd") (codes "mtu") ∷ token_num (codes "port") uint16 ∷ [];
}

unfoldable pub pcmd_mtu_set : Instruction Handler
unfolding token_num token_string
pcmd_mtu_set = record {
  handler = Handler.mtu_set;
  has_data = false;
  help = codes "mtu <port_id> <mtu_value>\n     Change MTU";
  tokens =
      token_string (codes "cmd") (codes "mtu")
      ∷ token_num (codes "port") uint16
      ∷ token_num (codes "mtu") uint16
      ∷ [];
}

unfoldable pub pcmd_mac_list : Instruction Handler
unfolding token_string
pcmd_mac_list = record {
  handler = Handler.mac_list;
  has_data = true;
  help = codes "macaddr\n     List port MAC address";
  tokens = token_string (codes "cmd") (codes "macaddr") ∷ [];
}

unfoldable pub pcmd_mac_get : Instruction Handler
unfolding token_num token_string
pcmd_mac_get = record {
  handler = Handler.mac_get;
  has_data = false;
  help = codes "macaddr <port_id>\n     Get MAC address";
  tokens = token_string (codes "cmd") (codes "macaddr") ∷ token_num (codes "port") uint16 ∷ [];
}

unfoldable pub pcmd_mac_set : Instruction Handler
unfolding token_etheraddr token_num token_string
pcmd_mac_set = record {
  handler = Handler.mac_set;
  has_data = true;
  help = codes "macaddr <port_id> <mac_addr>\n     Set MAC address";
  tokens =
      token_string (codes "cmd") (codes "macaddr")
      ∷ token_num (codes "port") uint16
      ∷ token_etheraddr (codes "mac")
      ∷ [];
}

unfoldable pub pcmd_mac_validate : Instruction Handler
unfolding token_etheraddr token_string
pcmd_mac_validate = record {
  handler = Handler.mac_validate;
  has_data = false;
  help = codes "validate <mac_addr>\n     Check that MAC address is valid unicast address";
  tokens = token_string (codes "cmd") (codes "validate") ∷ token_etheraddr (codes "mac") ∷ [];
}

unfoldable pub pcmd_vlan_change : Instruction Handler
unfolding token_num token_string
pcmd_vlan_change = record {
  handler = Handler.vlan_change;
  has_data = false;
  help = codes "vlan <port_id> <add|del> <vlan_id>\n     Add/remove VLAN id";
  tokens =
      token_string (codes "cmd") (codes "vlan")
      ∷ token_num (codes "port") uint16
      ∷ token_string (codes "mode") (codes "add#del")
      ∷ token_num (codes "vlan_id") uint16
      ∷ [];
}

unfoldable pub commands : List (Instruction Handler)
unfolding pcmd_quit pcmd_drvinfo pcmd_link pcmd_open_port pcmd_stop_port pcmd_rxmode pcmd_portstats
    pcmd_mtu_list pcmd_mtu_get pcmd_mtu_set pcmd_mac_list pcmd_mac_get pcmd_mac_set
    pcmd_mac_validate pcmd_vlan_change
commands =
    pcmd_quit ∷ pcmd_drvinfo ∷ pcmd_link ∷ pcmd_open_port ∷ pcmd_stop_port ∷ pcmd_rxmode
    ∷ pcmd_portstats ∷ pcmd_mtu_list ∷ pcmd_mtu_get ∷ pcmd_mtu_set ∷ pcmd_mac_list ∷ pcmd_mac_get
    ∷ pcmd_mac_set ∷ pcmd_mac_validate ∷ pcmd_vlan_change ∷ []

-- Just the handlers that unwrap the configuration are given it.
pub commands-data : All (λ i. unwraps i.handler ≡ i.has_data) commands
unfolding commands unwraps
commands-data = ground arith
