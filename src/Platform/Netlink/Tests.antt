-- ===== src/Platform/Netlink/Tests.antt =====
-- Two buffers of a dump: a link with both kinds of counters, a link without a name, and the end.
use sys_scope.Base.{◌≡◌, refl, true, [], ◌∷◌, codes}
use sys_scope.Core.Result.{ok}
use sys_scope.Platform.Host.{linux}
use sys_scope.Platform.Netlink.{
  Counters, Kernel, ifname, stats64, stats, done, new_link, other_message, query_link_stats,
}
use sys_scope.Platform.Netlink.Links.{stat_of, query_link_stats-links}

abbrev counted : Counters
counted = record {
  rx_bytes = 5_000_000_000;
  tx_bytes = 70;
  rx_packets = 9;
  tx_packets = 1;
  rx_errors = 0;
  tx_errors = 0;
}

abbrev cut_off : Counters
cut_off = record counted { rx_bytes = 705_032_704 }

abbrev answers : Kernel
answers = record {
  socket_opens = true;
  sends = true;
  received =
      (other_message ∷ new_link (stats cut_off ∷ ifname (codes "eth0") ∷ stats64 counted ∷ []) ∷ [])
      ∷ (new_link (stats cut_off ∷ [])
          ∷ done
          ∷ new_link (ifname (codes "lo") ∷ stats cut_off ∷ [])
          ∷ [])
      ∷ [];
}

query_link_stats-links_example :
    query_link_stats linux answers ≡ ok (stat_of (codes "eth0") counted ∷ [])
query_link_stats-links_example = query_link_stats-links answers refl refl
