-- ===== src/MultiNode/Init/Peers.antt =====
-- The list of peers: the entries of all nodes joined by commas.
use mathlib.Core.List.{append_assoc, append-nil}
use aegis_mirror.Base.{
  ℕ, suc, ◌≡◌, ◌≢◌, refl, List, [], ◌∷◌, ◌++◌, arith, All, All-append, numbered,
}
use aegis_mirror.Base.Text.{
  Text, codes, text_eq, text_eq_iff, split, join, join-append_last, split-join, join-ne-nil, Lacks,
  itoa, itoa-Lacks,
}
use aegis_mirror.MultiNode.Services.{p2p, port}
use aegis_mirror.MultiNode.Config.{NodeConfig, peer_memo, set_node_addresses}
use aegis_mirror.MultiNode.Init.Node.{add_peer}

-- The entries of the nodes from `i` on, with the ids that the nodes were given.
abbrev pub memos : Text → ℕ → List Text → List Text
memos ip = numbered (λ i id. peer_memo id ip i)

-- The text after the loop has added the entries of these nodes in turn.
abbrev pub add_peers : Text → List Text → Text
add_peers peers [] = peers
add_peers peers (memo ∷ rest) = add_peers (add_peer peers memo) rest

pub add_peers-append_last :
    (peers : Text) (ms : List Text) (memo : Text)
    → add_peers peers (ms ++ memo ∷ []) ≡ add_peer (add_peers peers ms) memo
add_peers-append_last peers [] memo = refl
add_peers-append_last peers (m ∷ ms) memo = add_peers-append_last (add_peer peers m) ms memo

add_peer-join :
    (p : Text) (ps : List Text) (memo : Text)
    → p ≢ []
    → add_peer (join b',' (p ∷ ps)) memo ≡ join b',' (p ∷ (ps ++ memo ∷ []))
unfolding add_peer
add_peer-join p ps memo ne = ground (
  arith,
  text_eq_iff (join b',' (p ∷ ps)) [],
  join-ne-nil b',' p ps ne,
  join-append_last b',' p ps memo,
)

add_peers-join :
    (p : Text) (ps rest : List Text)
    → p ≢ []
    → add_peers (join b',' (p ∷ ps)) rest ≡ join b',' (p ∷ (ps ++ rest))
add_peers-join p ps [] ne = rw append-nil
add_peers-join p ps (memo ∷ rest) ne =
    rw (add_peer-join p ps memo ne, add_peers-join p (ps ++ memo ∷ []) rest ne, append_assoc)

peer_memo-ne-nil : (id ip : Text) (i : ℕ) → peer_memo id ip i ≢ []
unfolding peer_memo
peer_memo-ne-nil [] ip i = λ e. cc
peer_memo-ne-nil (c ∷ id) ip i = λ e. cc

add_peer-nil : (memo : Text) → add_peer [] memo ≡ memo
unfolding add_peer text_eq
add_peer-nil memo = refl

-- The loop gives the entries of the nodes joined by commas, with none in front and none missing.
pub add_peers-memos :
    (ip : Text) (ids : List Text) → add_peers [] (memos ip 0 ids) ≡ join b',' (memos ip 0 ids)
unfolding join add_peer
add_peers-memos ip [] = refl
add_peers-memos ip (id ∷ ids) =
    rw add_peer-nil
      (add_peers-join (peer_memo id ip 0) [] (memos ip 1 ids) (peer_memo-ne-nil id ip 0))

peer_memo-Lacks :
    (id ip : Text) (i : ℕ) → Lacks b',' id → Lacks b',' ip → Lacks b',' (peer_memo id ip i)
unfolding peer_memo
peer_memo-Lacks id ip i h k =
    All-append _ id (codes "@" ++ (ip ++ (codes ":" ++ itoa (port p2p i)))) h (
      omega arith,
      All-append _ ip (codes ":" ++ itoa (port p2p i)) k
          (omega arith, itoa-Lacks (port p2p i) b',' (omega arith)),
    )

memos-Lacks :
    (ip : Text) (i : ℕ) (ids : List Text)
    → All (Lacks b',') ids
    → Lacks b',' ip
    → All (Lacks b',') (memos ip i ids)
memos-Lacks ip i [] h k = tt
memos-Lacks ip i (id ∷ ids) h k = (peer_memo-Lacks id ip i h.0 k, memos-Lacks ip (suc i) ids h.1 k)

-- Splitting the list of peers at its commas gives back the entry of each node, in order, where
-- there is a node and no comma stands in a node's id or in the address.
pub split-add_peers :
    (ip id : Text) (ids : List Text)
    → All (Lacks b',') (id ∷ ids)
    → Lacks b',' ip
    → split b',' (add_peers [] (memos ip 0 (id ∷ ids))) ≡ memos ip 0 (id ∷ ids)
split-add_peers ip id ids h k =
    rw add_peers-memos
      (split-join b',' (peer_memo id ip 0) (memos ip 1 ids) (memos-Lacks ip 0 (id ∷ ids) h k))

-- The entry of a node ends in the port at which the node is configured to listen.
pub peer_memo-p2p_listen_address :
    (id ip peers rpc_port : Text) (i : ℕ) (c : NodeConfig)
    → (port_text : Text) × (peer_memo id ip i
        ≡ id ++ (codes "@" ++ (ip ++ (codes ":" ++ port_text))))
      × ((set_node_addresses peers rpc_port i c).p2p_listen_address
          ≡ codes "tcp://0.0.0.0:" ++ port_text)
unfolding peer_memo set_node_addresses
peer_memo-p2p_listen_address id ip peers rpc_port i c = (itoa (port p2p i), refl, refl)
