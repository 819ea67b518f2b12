-- ===== src/Platform/Netlink/Links.antt =====
-- What is reported of the kernel's answer, said without the loops.
use sys_scope.Base.{
  ◌≡◌, refl, ap, ◌∙◌, sym, inl, inr, true, false, List, [], ◌∷◌, ◌++◌, Option, none, some, Text,
  is_empty, Bool-cases, if◌then◌else◌,
}
use mathlib.Core.List.{append_assoc, append-nil}
use sys_scope.Core.Result.{ok}
use sys_scope.Platform.Host.{linux, is_linux_platform}
use sys_scope.Platform.Devices.{NetlinkLinkStats}
use sys_scope.Platform.Netlink.{
  Counters, Attribute, ifname, stats64, stats, other_attribute, Message, done, failed, new_link,
  other_message, Kernel, Link, no_link, set_counters, read_attribute, read_attributes, add_link,
  read_messages, receive_loop, query_link_stats,
}

-- The last name, or `n` without one.
abbrev pub name_of : List Attribute → Text → Text
name_of [] n = n
name_of (ifname m ∷ as') n = name_of as' m
name_of (stats64 c ∷ as') n = name_of as' n
name_of (stats c ∷ as') n = name_of as' n
name_of (other_attribute ∷ as') n = name_of as' n

-- The last 64-bit counters, or `o` without any.
abbrev pub wide : List Attribute → Option Counters → Option Counters
wide [] o = o
wide (ifname m ∷ as') o = wide as' o
wide (stats64 c ∷ as') o = wide as' (some c)
wide (stats c ∷ as') o = wide as' o
wide (other_attribute ∷ as') o = wide as' o

-- The first 32-bit counters.
abbrev pub narrow : List Attribute → Option Counters
narrow [] = none
narrow (ifname m ∷ as') = narrow as'
narrow (stats64 c ∷ as') = narrow as'
narrow (stats c ∷ as') = some c
narrow (other_attribute ∷ as') = narrow as'

abbrev or_else : Option Counters → Option Counters → Option Counters
or_else none o = o
or_else (some c) o = some c

abbrev pub stat_of : Text → Counters → NetlinkLinkStats
stat_of n c = record {
  interface_name = n;
  rx_bytes = c.rx_bytes;
  tx_bytes = c.tx_bytes;
  rx_packets = c.rx_packets;
  tx_packets = c.tx_packets;
  rx_errors = c.rx_errors;
  tx_errors = c.tx_errors;
  rx_drops = 0;
  tx_drops = 0;
}

abbrev link_with : Text → Option Counters → Link
link_with n none = record {
  link_stat = record no_link.link_stat { interface_name = n };
  has_stats = false;
}
link_with n (some c) = record { link_stat = stat_of n c; has_stats = true }

read_attributes_lem :
    (as' : List Attribute) (n : Text) (o : Option Counters)
    → read_attributes as' (link_with n o)
      ≡ link_with (name_of as' n) (wide as' (or_else o (narrow as')))
unfolding read_attributes read_attribute set_counters
read_attributes_lem [] n none = refl
read_attributes_lem [] n (some c) = refl
read_attributes_lem (ifname m ∷ as') n none = read_attributes_lem as' m none
read_attributes_lem (ifname m ∷ as') n (some c) = read_attributes_lem as' m (some c)
read_attributes_lem (stats64 b ∷ as') n none = read_attributes_lem as' n (some b)
read_attributes_lem (stats64 b ∷ as') n (some c) = read_attributes_lem as' n (some b)
read_attributes_lem (stats b ∷ as') n none = read_attributes_lem as' n (some b)
read_attributes_lem (stats b ∷ as') n (some c) = read_attributes_lem as' n (some c)
read_attributes_lem (other_attribute ∷ as') n none = read_attributes_lem as' n none
read_attributes_lem (other_attribute ∷ as') n (some c) = read_attributes_lem as' n (some c)

-- The report of a link: none without a name or without counters.
abbrev pub reported : Text → Option Counters → List NetlinkLinkStats
reported n none = []
reported n (some c) = if is_empty n then [] else stat_of n c ∷ []

abbrev pub report_of : List Attribute → List NetlinkLinkStats
report_of as' = reported (name_of as' []) (wide as' (narrow as'))

add_link-link_with :
    (n : Text) (o : Option Counters) (out : List NetlinkLinkStats)
    → add_link (link_with n o) out ≡ out ++ reported n o
unfolding add_link
add_link-link_with n none out = elim (Bool-cases (is_empty n)) [
  | inl e ↦ rw e (sym (append-nil out))
  | inr e ↦ rw e (sym (append-nil out))
]
add_link-link_with n (some c) out = elim (Bool-cases (is_empty n)) [
  | inl e ↦ rw e (sym (append-nil out))
  | inr e ↦ rw e refl
]

-- The links among the messages before the first that ends the dump.
abbrev pub links_before_end : List Message → List NetlinkLinkStats
links_before_end [] = []
links_before_end (done ∷ ms) = []
links_before_end (failed ∷ ms) = []
links_before_end (new_link as' ∷ ms) = report_of as' ++ links_before_end ms
links_before_end (other_message ∷ ms) = links_before_end ms

abbrev pub joined : List (List Message) → List Message
joined [] = []
joined (b ∷ bs) = b ++ joined bs

-- One buffer, with the buffers behind it that are read only if it has no end.
read_messages_lem :
    (ms : List Message) (bs : List (List Message)) (out : List NetlinkLinkStats)
    → ((out' : List NetlinkLinkStats) → receive_loop bs out' ≡ out' ++ links_before_end (joined bs))
    → receive_loop (ms ∷ bs) out ≡ out ++ links_before_end (ms ++ joined bs)
unfolding receive_loop read_messages
read_messages_lem [] bs out ih = ih out
read_messages_lem (done ∷ ms) bs out ih = sym (append-nil out)
read_messages_lem (failed ∷ ms) bs out ih = sym (append-nil out)
read_messages_lem (new_link as' ∷ ms) bs out ih =
    let one : add_link (read_attributes as' no_link) out ≡ out ++ report_of as' =
      ap (λ (l : Link). add_link l out) (read_attributes_lem as' [] none)
      ∙ add_link-link_with (name_of as' []) (wide as' (narrow as')) out in
    read_messages_lem ms bs (add_link (read_attributes as' no_link) out) ih
    ∙ ap (λ (l : List NetlinkLinkStats). l ++ links_before_end (ms ++ joined bs)) one
    ∙ append_assoc out (report_of as') (links_before_end (ms ++ joined bs))
read_messages_lem (other_message ∷ ms) bs out ih = read_messages_lem ms bs out ih

receive_loop_lem :
    (bs : List (List Message)) (out : List NetlinkLinkStats)
    → receive_loop bs out ≡ out ++ links_before_end (joined bs)
unfolding receive_loop
receive_loop_lem [] out = sym (append-nil out)
receive_loop_lem (b ∷ bs) out = read_messages_lem b bs out (receive_loop_lem bs)

-- On Linux, with the socket open and the request sent, the reader reports, in order, every link message
-- before the first done or error message, wherever the buffers are cut, that has a name and counters:
-- with its last name and with its last 64-bit counters, or its first 32-bit counters if it has no
-- 64-bit ones, and always with no drops.
pub query_link_stats-links :
    (k : Kernel)
    → k.socket_opens ≡ true
    → k.sends ≡ true
    → query_link_stats linux k ≡ ok (links_before_end (joined k.received))
unfolding query_link_stats is_linux_platform
query_link_stats-links k h s = rw (h, s) (ap ok (receive_loop_lem k.received []))
