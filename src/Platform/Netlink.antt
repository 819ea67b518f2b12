-- ===== src/Platform/Netlink.antt =====
-- platform/real_netlink_reader.cpp: what query_link_stats makes of the kernel's answer. The macros of
-- <linux/netlink.h> and <linux/rtnetlink.h> cut a buffer into messages and a message into attributes;
-- the model starts from these.
pub mod Links
mod Tests
use sys_scope.Base.{
  ℕ, Bool, true, false, not, ◌&&◌, List, [], ◌∷◌, ◌++◌, Text, codes, is_empty, if◌then◌else◌,
}
use sys_scope.Core.Result.{Result, ok, error}
use sys_scope.Platform.Host.{Host, is_linux_platform}
use sys_scope.Platform.Devices.{NetlinkLinkStats}

-- The six counters that are read of rtnl_link_stats64 and of rtnl_link_stats.
pub record Counters : Type 0 where
  pub rx_bytes : ℕ
  pub tx_bytes : ℕ
  pub rx_packets : ℕ
  pub tx_packets : ℕ
  pub rx_errors : ℕ
  pub tx_errors : ℕ

-- IFLA_IFNAME, IFLA_STATS64, IFLA_STATS and any other type.
pub data Attribute : Type 0 where
  ifname : Text → Attribute
  stats64 stats : Counters → Attribute
  other_attribute : Attribute

-- NLMSG_DONE, NLMSG_ERROR, RTM_NEWLINK and any other type.
pub data Message : Type 0 where
  done failed : Message
  new_link : List Attribute → Message
  other_message : Message

-- What the system calls answer: whether socket() and send() succeed, and the messages of each recv()
-- until one returns 0 or less.
pub record Kernel : Type 0 where
  pub socket_opens : Bool
  pub sends : Bool
  pub received : List (List Message)

-- `link_stat` and `has_stats`
pub record Link : Type 0 where
  pub link_stat : NetlinkLinkStats
  pub has_stats : Bool

abbrev pub no_link : Link
no_link = record {
  link_stat = record {
    interface_name = [];
    rx_bytes = 0;
    tx_bytes = 0;
    rx_packets = 0;
    tx_packets = 0;
    rx_errors = 0;
    tx_errors = 0;
    rx_drops = 0;
    tx_drops = 0;
  };
  has_stats = false;
}

pub set_counters : Counters → Link → Link
set_counters c l = record {
  link_stat = record l.link_stat {
    rx_bytes = c.rx_bytes;
    tx_bytes = c.tx_bytes;
    rx_packets = c.rx_packets;
    tx_packets = c.tx_packets;
    rx_errors = c.rx_errors;
    tx_errors = c.tx_errors;
  };
  has_stats = true;
}

pub read_attribute : Attribute → Link → Link
unfolding set_counters
read_attribute (ifname n) l = record l { link_stat = record l.link_stat { interface_name = n } }
read_attribute (stats64 c) l = set_counters c l
read_attribute (stats c) l = if not l.has_stats then set_counters c l else l
read_attribute other_attribute l = l

-- `for (; RTA_OK(rta, rta_len); rta = RTA_NEXT(rta, rta_len))`
pub read_attributes : List Attribute → Link → Link
read_attributes [] l = l
read_attributes (a ∷ as') l = read_attributes as' (read_attribute a l)

pub add_link : Link → List NetlinkLinkStats → List NetlinkLinkStats
add_link l stats_list =
    if not (is_empty l.link_stat.interface_name) && l.has_stats
    then stats_list ++ (l.link_stat ∷ [])
    else stats_list

-- The messages of one buffer; `true` is `done`.
pub read_messages : List Message → List NetlinkLinkStats → List NetlinkLinkStats × Bool
unfolding read_attributes add_link
read_messages [] stats_list = (stats_list, false)
read_messages (done ∷ ms) stats_list = (stats_list, true)
read_messages (failed ∷ ms) stats_list = (stats_list, true)
read_messages (new_link attributes ∷ ms) stats_list =
    read_messages ms (add_link (read_attributes attributes no_link) stats_list)
read_messages (other_message ∷ ms) stats_list = read_messages ms stats_list

-- `while (!done)`
pub receive_loop : List (List Message) → List NetlinkLinkStats → List NetlinkLinkStats
unfolding read_messages
receive_loop [] stats_list = stats_list
receive_loop (b ∷ bs) stats_list =
    let (read, is_done) = read_messages b stats_list in
    let rest = receive_loop bs read in if is_done then read else rest

is_available : Host → Bool
is_available host = is_linux_platform host

pub query_link_stats : Host → Kernel → Result (List NetlinkLinkStats)
unfolding receive_loop
query_link_stats host k =
    if not (is_linux_platform host)
    then error (codes "rtnetlink sockets are only supported on Linux platform targets.")
    else if not k.socket_opens
    then error (codes "Failed to open AF_NETLINK route socket.")
    else if not k.sends
    then error (codes "Failed to send RTM_GETLINK netlink request.")
    else ok (receive_loop k.received [])
