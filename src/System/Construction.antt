-- ===== src/System/Construction.antt =====
-- A new medium has no nodes.
use x6losim.Prelude.{◌≡◌, refl, subst, [], Bool, true, false, none}
use x6losim.Prelude.Fault.{Fault, Result, ok, require, ◌>>◌, thrown, asserted}
use x6losim.Clock.{Timespec}
use x6losim.Store.{Medium, MediumKind, stopped}
use x6losim.Medium.Construction.{MediumAnswers, new_medium}
use x6losim.System.Steps.{IsEmpty}

required :
    {A : Type 0} (b : Bool) (f : Fault) (x : Result A) {a : A}
    → (require b f >> x) ≡ ok a
    → x ≡ ok a
required true f x h = h
required false f x h = cc

abbrev fresh_medium : MediumKind → Timespec → Medium
fresh_medium kind found = record {
  kind = kind;
  cur_time = found;
  state = stopped;
  heap = λ p. none;
  reg_list_map = [];
  node_hash_map = [];
  cca_list = [];
  tx_list = [];
  tx_pkts_ok = 0;
  tx_pkts_collided = 0;
  tx_pkts_failed = 0;
  sent = [];
  multicast = [];
  dumped = [];
}

pub new_medium-IsEmpty :
    (kind : MediumKind) (found : Timespec) (a : MediumAnswers) {w : Medium}
    → new_medium kind found a ≡ ok w
    → IsEmpty w
unfolding new_medium
new_medium-IsEmpty kind found a {w} h =
    let made = required a.pcap_dump_open asserted _ (
      required a.pcap_open asserted _ (
        required a.timer_create thrown _
          (required a.epoll_ctl thrown _ (required a.epoll_create thrown _ h)))) in
    let same : fresh_medium kind found ≡ w = cc in
    subst IsEmpty same (record {
      no_nodes = λ p. refl;
      no_listed = refl;
      no_mapped = refl;
      no_asking = refl;
      no_sending = refl;
    })
