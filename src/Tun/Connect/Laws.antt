-- ===== src/Tun/Connect/Laws.antt =====
-- The connections that an event adds to the table.
use proxy_rule_manager.Common.{
  ℕ, ◌+◌, ◌≡◌, false, ◌||◌, some, List, if◌then◌else◌, ◌%◌, ◌^◌, nat_beq,
}
use proxy_rule_manager.Text.{Text, is_empty}
use proxy_rule_manager.Platform.{Platform, Bytes}
use proxy_rule_manager.Net.{is_loopback}
use proxy_rule_manager.Procmatch.{match_process}
use proxy_rule_manager.Tun.Table.{Connection, Table}
use proxy_rule_manager.Tun.Profiles.{profile_for_query}
use proxy_rule_manager.Tun.Reflect.Laws.{IsWellFormed}
use proxy_rule_manager.Tun.Connect.Upstream.{IsUpstream}
use proxy_rule_manager.Tun.Connect.{
  Process, Outside, Service, connection_for, ensure_udp_block, register,
}

module _ ⦃p : Platform⦄ where
  -- The process of the connection is one that the queries name, its addresses are IPv4 and not on
  -- the loopback interface, and its remote end is not the upstream proxy.
  pub record IsRedirected (o : Outside) (queries : List Text) (c : Connection) : Type 0 where
    pub wanted : match_process c.process_name c.process_path queries ≡ some c.query
    pub foreign : (is_loopback c.local_addr || is_loopback c.remote_addr) ≡ false
    pub past_upstream : ¬ IsUpstream o c.remote_addr c.remote_port
    pub form : IsWellFormed c

  module _ (o : Outside) (proc : Process) (local_ip : Bytes) (local_port : ℕ) (remote_ip : Bytes)
      (remote_port : ℕ) where
    abbrev noted : Service → Service
    noted s = record s {
      matched_connects = (s.matched_connects + 1) % 2 ^ 64;
      last_matched_process = proc.path;
    }

    abbrev make_for : Text → Service → ℕ → Connection
    make_for query s port =
        connection_for o proc query (profile_for_query s.query_map query) local_ip local_port
          remote_ip remote_port port

    abbrev prepared : Text → Service → Service
    prepared query s =
        let registered = register o (make_for query s) (noted s) in
        if is_empty proc.path then registered else ensure_udp_block o proc.path registered
