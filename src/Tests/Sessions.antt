-- ===== src/Tests/Sessions.antt =====
-- The sessions and protocols of net/ at concrete nodes.
use sapvi.Prelude.{
  ℕ, ◌<◌, ◌≡◌, ◌≢◌, ◌⊎◌, refl, arith, List, [], ◌∷◌, ◌++◌, true, false, not, ◌||◌, ◌&&◌, none, some,
}
use sapvi.Error.{channel_stopped, ok, err}
use sapvi.System.Subscriber.{new_subscriber, notify, send_copies}
use sapvi.System.StoppableTask.{signalled}
use sapvi.Net.Messages.{pong}
use sapvi.Net.Channel.{main_receive_loop, notified}
use sapvi.Net.Channel.Receive.{stop_events}
use sapvi.Net.Hosts.{contains, store, load_all, load_single, member, same_addr}
use sapvi.Net.Hosts.Laws.{IsDistinct}
use sapvi.Net.P2p.{
  P2p, default_settings, new_p2p, store_channel, exists, add_pending, remove_pending,
}
use sapvi.Net.P2p.Laws.{add_pending-lock}
use sapvi.Net.Outbound.Slots.{here, next, learns, try_connect-pending}
use sapvi.Net.Hosts.Overlap.{Pool, Reaches, store-overlap}
use sapvi.Net.Outbound.{is_self_inbound, load_address, try_connect, connect}
use sapvi.Net.Outbound.Laws.{IsFree, load_address-eq-ok, load_address-free}
use sapvi.Net.Version.{new_peer, send_version, recv_version, exchange_versions}
use sapvi.Net.Version.Links.{Pair, Task, left_send, right_recv, step, Run, initial, after}
use sapvi.Net.Version.Completes.{exchange_versions-Run}
use sapvi.Net.Protocols.{ping_round, reply_to_ping}
use sapvi.Net.Protocols.Ping.{ping_round-reply_to_ping}
use sapvi.Tests.Network.{untold, fresh_channel, takes_all, address, known, one_ping}

-- A node that listens on one of its known addresses.
abbrev node : P2p
node = record (new_p2p (record default_settings { inbound = some (address 80) })) { hosts = known }

abbrev connected : P2p
connected = record node { channels = (address 81, fresh_channel) ∷ [] }

stored_run : store_channel (address 81) fresh_channel node ≡ ok connected
unfolding store_channel notify send_copies new_p2p default_settings new_subscriber
stored_run = refl

lock_example :
    ((add_pending (address 80) node).0 ≡ not (member (address 80) node.pending))
    × (member (address 80) (add_pending (address 80) node).1.pending ≡ true)
    × ((add_pending (address 80) (add_pending (address 80) node).1).0 ≡ false)
    × ((add_pending (address 80) (remove_pending (address 80) (add_pending (address 80) node).1)).0
        ≡ true)
    × (member (address 81) (add_pending (address 80) node).1.pending
        ≡ (same_addr (address 81) (address 80) || member (address 81) node.pending))
    × (member (address 81) (remove_pending (address 80) node).pending
        ≡ (not (same_addr (address 81) (address 80)) && member (address 81) node.pending))
lock_example = add_pending-lock node (address 80) (address 81)

abbrev taken : P2p
taken = record node { pending = address 81 ∷ [] }

-- The node's own address is passed over.
load_run : load_address (0 ∷ 1 ∷ []) node ≡ some (ok (address 81, taken))
unfolding load_address load_single is_self_inbound exists add_pending same_addr member new_p2p
    default_settings
load_run = refl

taken_example :
    IsFree node (address 81)
    × ((choice : ℕ) × (load_single choice known ≡ some (address 81)))
    × (taken ≡ record node { pending = address 81 ∷ node.pending })
taken_example = load_address-eq-ok (0 ∷ 1 ∷ []) node taken (address 81) load_run

node-IsFree : IsFree node (address 81)
unfolding is_self_inbound exists same_addr member new_p2p default_settings
node-IsFree = record { other = refl; unconnected = refl; unlocked = refl }

second_choice : load_single 1 known ≡ some (address 81)
unfolding load_single
second_choice = refl

free_example : (a : _) × (q : P2p) × (load_address ((0 ∷ 0 ∷ []) ++ 1 ∷ []) node ≡ some (ok (a, q)))
free_example =
    load_address-free (0 ∷ 0 ∷ []) 1 [] node (address 81) (omega arith, (omega arith, tt))
      second_choice node-IsFree

-- The connection fails after the known hosts have changed.
abbrev meanwhile : P2p
meanwhile = record taken { hosts = record { addrs = address 81 ∷ [] } }

failed_run : try_connect signalled signalled (address 81) meanwhile ≡ ok meanwhile
unfolding try_connect connect
failed_run = refl

pending_example :
    (member (address 81) (record meanwhile { hosts = known }).pending ≡ true)
    × ((add_pending (address 81) (record meanwhile { hosts = known })).0 ≡ false)
    × (load_address (1 ∷ []) (record meanwhile { hosts = known })
        ≢ some (ok (address 81, meanwhile)))
pending_example =
    try_connect-pending (0 ∷ 1 ∷ []) node taken meanwhile (address 81) []
      (record { p2p = meanwhile; held = [] })
      (record { p2p = record meanwhile { hosts = known }; held = [] }) signalled signalled (1 ∷ [])
      meanwhile tt load_run
      (next here (learns (record { p2p = taken; held = [] }) (record { addrs = address 81 ∷ [] })))
      (λ c e. ground (arith, e)) failed_run
      (next here (learns (record { p2p = meanwhile; held = [] }) known))

-- The tasks of two nodes, one after the other.
abbrev play : Pair → List Task → Pair
play s [] = s
play s (task ∷ tasks) = elim (step task s) [ none ↦ s | some t ↦ play t tasks ]

abbrev at : List Task → Pair
at = play (record { left = new_peer; right = new_peer })

abbrev half_way : Pair
half_way = at (left_send ∷ right_recv ∷ [])

abbrev taken_steps : ℕ
taken_steps = 2

versions_run : Run taken_steps half_way
unfolding send_version recv_version new_peer
versions_run = after (after initial left_send refl) right_recv refl

exchange_example :
    ((taken_steps < 6) × (task : Task) × (t : Pair) × (step task half_way ≡ some t))
    ⊎ ((taken_steps ≡ 6)
        × (exchange_versions half_way.left ≡ some (ok tt))
        × (exchange_versions half_way.right ≡ some (ok tt)))
exchange_example = exchange_versions-Run taken_steps half_way versions_run

ping_example :
    (question : List ℕ) × (answer : List ℕ) × (payload : List ℕ) × (reply_to_ping takes_all
        (ok one_ping ∷ [])
        fresh_channel
      ≡ ok (record fresh_channel { sent = [] ++ answer }))
    × (main_receive_loop 32 2 fresh_channel answer
        ≡ some (
            err (
              channel_stopped,
              record fresh_channel {
                events =
                    []
                    ++ (notified (record { command = pong.name; payload = payload }) ∷ stop_events);
              },
            )))
    × (pong.codec.decode payload ≡ ok (record { nonce = 0x01020304 }, []))
    × (ping_round takes_all 0x01020304 (ok (record { nonce = 0x01020304 })) fresh_channel
        ≡ ok (record fresh_channel { sent = [] ++ question }))
ping_example =
    ping_round-reply_to_ping takes_all 32 fresh_channel fresh_channel new_subscriber 0x01020304
      (λ frame. refl) refl refl untold (omega arith)

-- Two tasks learn the same address.
overlap_example :
    IsDistinct (load_all (store (store known (address 82 ∷ [])) (address 82 ∷ [])))
    × ((t : Pool) × Reaches (record { hosts = known; checked = [] }) t
        × (t.checked ≡ [])
        × (IsDistinct (load_all t.hosts) → ⊥))
unfolding IsDistinct member load_all contains
overlap_example = store-overlap known (address 82 ∷ []) (λ e. cc) refl (refl, (refl, tt)) (refl, tt)
