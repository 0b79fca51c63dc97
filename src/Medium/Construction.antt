-- ===== src/Medium/Construction.antt =====
-- Construction of `PhysicalMedium_pimpl` (src/sim/PhysicalMedium.cpp). The kernel's objects that it
-- opens do not show in the state.
use x6losim.Prelude.{[], Bool, none}
use x6losim.Prelude.Fault.{Result, ok, ◌>>◌, require, thrown, asserted}
use x6losim.Clock.{Timespec}
use x6losim.Store.{Medium, MediumKind, stopped}

-- Whether the kernel and libpcap grant what the constructor asks for.
pub record MediumAnswers : Type 0 where
  pub epoll_create : Bool
  pub epoll_ctl : Bool
  pub timer_create : Bool
  pub pcap_open : Bool
  pub pcap_dump_open : Bool

-- `curTime` keeps the bytes that it finds.
unfoldable pub new_medium : MediumKind → Timespec → MediumAnswers → Result Medium
new_medium kind found a =
    require a.epoll_create thrown
    >> (require a.epoll_ctl thrown
        >> (require a.timer_create thrown
            >> (require a.pcap_open asserted
                >> (require a.pcap_dump_open asserted
                    >> ok (record {
                      kind = kind;
                      cur_time = found;
                      state = stopped;
                      heap = λ p. none;
                      reg_list_map = [];
                      node_hash_map = [];
                      cca_list = [];
                      tx_list = [];
                      tx_pkts_ok = 0;
                      tx_pkts_collided = 0;
                      tx_pkts_failed = 0;
                      sent = [];
                      multicast = [];
                      dumped = [];
                    })))))
