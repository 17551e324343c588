-- ===== src/Tests/ResolveRuns.antt =====
-- kernel/src/net.c: `net_resolve` of `a.b`, whose answer arrives while the loop sleeps behind its first poll.
use choco_os.Base.{ℕ, true, false, List, [], ◌∷◌, some, none, replicate}
use choco_os.Net.{Net}
use choco_os.Net.Dhcp.{Client, udp_send}
use choco_os.Tests.DnsRuns.{reply}
use choco_os.Net.Resolve.Answered.{query_text}

abbrev client : Client
client = record {
  net = record {
    our_mac = replicate 6 2;
    our_ip = 0x0f02000a;
    our_mask = 0x00ffffff;
    our_gw = 0x0202000a;
    arp_cache = [];
    ip_id = 1;
    icmp_waiting = false;
    icmp_id = 0;
    icmp_seq = 0;
    icmp_got = false;
    udp_port = 0;
    udp_data = replicate 1024 0;
    udp_len = 0;
    udp_src_ip = 0;
    sent = [];
  };
  nic_up = true;
  configured = true;
  our_dns = 0x0302000a;
}

abbrev host : List (List ℕ)
host = (97 ∷ []) ∷ (98 ∷ []) ∷ []

abbrev asking : Net
asking = record (client.net) { udp_len = 0; udp_port = 49152 }

abbrev asked : Net
asked =
    elim (udp_send (some (replicate 6 7)) asking client.our_dns 49152 53 (query_text 258 host)) [
      | none ↦ asking
      | some s ↦ s
    ]

-- The receiving thread puts the reply into the socket.
abbrev arrives : Net → Net
arrives s = record s { udp_data = reply; udp_len = 37 }
