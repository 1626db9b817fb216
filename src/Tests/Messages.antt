-- ===== src/Tests/Messages.antt =====
-- Messages at concrete inputs.
use proxyio.Base.{◌-◌, ◌≡◌, ◌≢◌, refl, ap, [], ◌∷◌, ◌++◌, take, drop, length, arith, leb}
use proxyio.Bufio.{Bio}
use proxyio.Bufio.Stream.{contents, IsBio}
use proxyio.Msgbuf.{nil, cmsg_head}
use proxyio.Msgbuf.Frame.{Msghdr, msghdr_bytes}
use proxyio.Msgbuf.Tree.{IsMessage, wire, unsent}
use proxyio.Msgbuf.Send.{own_iov, msgbuf_serialize, msgbuf_install_iovs}
use proxyio.Msgbuf.Fragments.{all_bytes, msgbuf_serialize-unsent}
use proxyio.Msgbuf.Ordered.{IsOrdered}
use proxyio.Msgbuf.Install.{msgbuf_install_iovs_lem}
use proxyio.Msgbuf.Parse.{done, again, bug, msgbuf_deserialize}
use proxyio.Msgbuf.RoundTrip.{rewind, msgbuf_deserialize-wire}
use proxyio.Msgbuf.Malformed.{msgbuf_deserialize-prefix, msgbuf_deserialize-aborts}
use proxyio.Tests.Samples.{
  crc, bio_of, contents-bio_of, bio_of-IsBio, tree, tree-IsMessage, tree-IsOrdered,
}

msgbuf_deserialize-wire_example :
    (b' : Bio) × (msgbuf_deserialize crc 2 (bio_of (wire tree ++ 9 ∷ [])) ≡ done (rewind tree) b')
    × IsBio b'
    × (contents b' ≡ 9 ∷ [])
unfolding msghdr_bytes
msgbuf_deserialize-wire_example =
    msgbuf_deserialize-wire crc tree 2 (bio_of (wire tree ++ 9 ∷ [])) (9 ∷ []) tree-IsMessage
      (omega arith) (bio_of-IsBio (wire tree ++ 9 ∷ []) (omega arith))
      (contents-bio_of (wire tree ++ 9 ∷ []))

msgbuf_deserialize-prefix_example : msgbuf_deserialize crc 2 (bio_of (take 20 (wire tree))) ≡ again
unfolding msghdr_bytes
msgbuf_deserialize-prefix_example =
    msgbuf_deserialize-prefix crc tree 1 (bio_of (take 20 (wire tree))) (8 ∷ []) tree-IsMessage
      (bio_of-IsBio (take 20 (wire tree)) (omega arith))
      (ap (λ bytes. bytes ++ 8 ∷ []) (contents-bio_of (take 20 (wire tree)))) (omega arith)

-- One child is announced, of no bytes.
abbrev understated : Msghdr
understated = record { checksum = 0; cmsg_num = 1; cmsg_length = 0; ulen = 2 }

msgbuf_deserialize-aborts_example :
    msgbuf_deserialize crc 2 (bio_of (msghdr_bytes understated ++ 7 ∷ 8 ∷ [])) ≡ bug
unfolding msghdr_bytes
msgbuf_deserialize-aborts_example =
    msgbuf_deserialize-aborts crc understated (7 ∷ 8 ∷ []) 0 0
      (bio_of (msghdr_bytes understated ++ 7 ∷ 8 ∷ []))
      (record {
        checksum_fits = omega arith;
        cmsg_num_fits = omega arith;
        cmsg_length_fits = omega arith;
        ulen_fits = omega arith;
      })
      refl (omega arith) refl refl
      (bio_of-IsBio (msghdr_bytes understated ++ 7 ∷ 8 ∷ []) (omega arith))
      (contents-bio_of (msghdr_bytes understated ++ 7 ∷ 8 ∷ []))

abbrev huge : Msghdr
huge = record { checksum = 0; cmsg_num = 0; cmsg_length = 0; ulen = 4294967295 }

msgbuf_install_iovs_lem_example :
    let (m', left, all) = msgbuf_install_iovs tree 15 in
    IsMessage m'
    × IsOrdered m'
    × (unsent m' ≡ drop 15 (unsent tree))
    × (left ≡ 15 - length (unsent tree))
    × (all ≡ leb (length (unsent tree)) 15)
msgbuf_install_iovs_lem_example =
    msgbuf_install_iovs_lem tree 15 tree-IsMessage tree-IsOrdered (omega arith)

msgbuf_serialize-unsent_example : all_bytes (msgbuf_serialize tree 9) ≡ unsent tree
unfolding own_iov
msgbuf_serialize-unsent_example = msgbuf_serialize-unsent tree 9 tree-IsMessage (omega arith)

tree-not_nil : cmsg_head tree ≢ nil
tree-not_nil e = cc
