-- ===== src/Tests/NetRuns.antt =====
-- kernel/src/net.c with an empty cache and a socket that listens on port 68.
use choco_os.Base.{
  ℕ, ◌/◌, ◌%◌, ◌≡◌, ◌<◌, ◌⊎◌, refl, false, List, [], ◌∷◌, ◌++◌, some, none, arith, replicate,
}
use choco_os.Net.{Net, ArpEntry, checksum16, arp_cache_put, arp_cache_get, handle_udp, handle_frame}
use choco_os.Net.Checksum.{checksum16_verifies}
use choco_os.Net.Arp.{has_room, arp_cache_get-put}
use choco_os.Net.Udp.{IsSocket, Delivered, handle_udp-Delivered}
use choco_os.Net.Address.{ip_to_str, str_to_ip, str_to_ip-ip_to_str}
use choco_os.Net.Frame.{handle_frame-IsSocket}

abbrev free_entry : ArpEntry
free_entry = record { ip = 0; mac = replicate 6 0; valid = false }

abbrev idle : Net
idle = record {
  our_mac = replicate 6 2;
  our_ip = 0;
  our_mask = 0;
  our_gw = 0;
  arp_cache = replicate 8 free_entry;
  ip_id = 1;
  icmp_waiting = false;
  icmp_id = 0;
  icmp_seq = 0;
  icmp_got = false;
  udp_port = 68;
  udp_data = replicate 1024 0;
  udp_len = 0;
  udp_src_ip = 0;
  sent = [];
}

idle-IsSocket : IsSocket idle
idle-IsSocket = record { buffer = refl; inside = omega arith }

-- A datagram of two bytes for port 68.
abbrev datagram : List ℕ
datagram = 0 ∷ 67 ∷ 0 ∷ 68 ∷ 0 ∷ 10 ∷ 0 ∷ 0 ∷ 7 ∷ 9 ∷ []

handle_udp-Delivered_example :
    IsSocket (handle_udp idle 5 datagram) × Delivered idle 5 datagram (handle_udp idle 5 datagram)
handle_udp-Delivered_example = handle_udp-Delivered idle 5 datagram idle-IsSocket

handle_frame-IsSocket_example :
    (s' : Net) × (handle_frame none idle (replicate 14 0 ++ datagram) ≡ some s') × IsSocket s'
handle_frame-IsSocket_example =
    handle_frame-IsSocket none idle (replicate 14 0 ++ datagram) idle-IsSocket

arp_cache_get-put_example :
    (arp_cache_get (arp_cache_put (free_entry ∷ []) 3 (1 ∷ [])) 3 ≡ some (1 ∷ []))
    × ((has_room 3 (free_entry ∷ []) ≡ false)
        ⊎ (arp_cache_get (arp_cache_put (free_entry ∷ []) 3 (1 ∷ [])) 4
            ≡ arp_cache_get (free_entry ∷ []) 4))
arp_cache_get-put_example = arp_cache_get-put free_entry [] 3 (1 ∷ []) 4 (omega arith)

checksum16_verifies_example :
    (c : ℕ) × (checksum16 ((69 ∷ 0 ∷ []) ++ 0 ∷ 0 ∷ (64 ∷ [])) 0 ≡ some c)
    × (c < 65536)
    × (checksum16 ((69 ∷ 0 ∷ []) ++ (c % 256) ∷ (c / 256) ∷ (64 ∷ [])) 0 ≡ some 0)
checksum16_verifies_example =
    checksum16_verifies (69 ∷ 0 ∷ []) (64 ∷ [])
      (omega arith, (omega arith, (omega arith, (omega arith, (omega arith, tt))))) tt (omega arith)

str_to_ip-ip_to_str_example : str_to_ip (ip_to_str 10 0 2 255) ≡ some (10 ∷ 0 ∷ 2 ∷ 255 ∷ [])
str_to_ip-ip_to_str_example =
    str_to_ip-ip_to_str 10 0 2 255 (omega arith) (omega arith) (omega arith) (omega arith)
