-- ===== src/Tests/Samples.antt =====
-- Small buffers, messages and queues, and a checksum that stands for `crc16`.
use proxyio.Base.{
  ℕ, ◌-◌, ◌%◌, ◌^◌, ◌≤◌, ◌<◌, ◌≡◌, refl, sym, ap, ◌∙◌, true, List, [], ◌∷◌, ◌++◌, take, length,
  replicate, arith, length-append, length-replicate, take-append_length, append-nil,
}
use proxyio.Bufio.{Bio}
use proxyio.Bufio.Pages.{page_size}
use proxyio.Bufio.Stream.{contents, IsBio}
use proxyio.Msgbuf.{Msgbuf, msgbuf, nil, cons}
use proxyio.Msgbuf.Tree.{IsMessage}
use proxyio.Msgbuf.Ordered.{IsOrdered}
use proxyio.MsgbufHead.{MsgbufHead}
use proxyio.MsgbufHead.Order.{IsHead}

abbrev pub crc : List ℕ → ℕ
crc bytes = length bytes % 2 ^ 16

pub crc_fits : (bytes : List ℕ) → crc bytes < 2 ^ 16
crc_fits bytes = omega arith

-- One page that holds some bytes.
abbrev pub bio_of : List ℕ → Bio
bio_of bytes = record {
  bsize = length bytes;
  pno = 1;
  page_head =
      record {
        start = 0;
        end = length bytes;
        page = bytes ++ replicate (page_size - length bytes) 0;
      }
      ∷ [];
}

pub contents-bio_of : (bytes : List ℕ) → contents (bio_of bytes) ≡ bytes
contents-bio_of bytes =
    ap (λ k. take k (bytes ++ replicate (page_size - length bytes) 0) ++ []) (omega arith)
    ∙ append-nil (take (length bytes) (bytes ++ replicate (page_size - length bytes) 0))
    ∙ take-append_length bytes (replicate (page_size - length bytes) 0)

pub bio_of-IsBio : (bytes : List ℕ) → length bytes ≤ page_size → IsBio (bio_of bytes)
bio_of-IsBio bytes h = record {
  pages = (
    record {
      at_front = refl;
      in_page = h;
      memory = omega (
        arith,
        length-append bytes (replicate (page_size - length bytes) 0),
        length-replicate {A = ℕ} (page_size - length bytes) 0,
      );
    },
    tt,
  );
  counted = ap (length {A = ℕ}) (sym (contents-bio_of bytes));
  small = omega arith;
}

abbrev pub leaf : Msgbuf
leaf = msgbuf 0 (record { checksum = 5; cmsg_num = 0; cmsg_length = 0; ulen = 2 }) (7 ∷ 8 ∷ []) nil

abbrev pub tree : Msgbuf
tree =
    msgbuf 0 (record { checksum = 6; cmsg_num = 1; cmsg_length = 10; ulen = 3 }) (1 ∷ 2 ∷ 3 ∷ [])
      (cons leaf nil)

pub leaf-IsMessage : IsMessage leaf
leaf-IsMessage = (
  record {
    checksum_fits = omega arith;
    cmsg_num_fits = omega arith;
    cmsg_length_fits = omega arith;
    ulen_fits = omega arith;
  },
  refl,
  omega arith,
  refl,
  refl,
  omega arith,
  tt,
)

pub tree-IsMessage : IsMessage tree
tree-IsMessage = (
  record {
    checksum_fits = omega arith;
    cmsg_num_fits = omega arith;
    cmsg_length_fits = omega arith;
    ulen_fits = omega arith;
  },
  refl,
  omega arith,
  refl,
  refl,
  omega arith,
  (leaf-IsMessage, tt),
)

pub leaf-IsOrdered : IsOrdered leaf
leaf-IsOrdered = (tt, λ h. tt)

pub tree-IsOrdered : IsOrdered tree
tree-IsOrdered = ((leaf-IsOrdered, tt, λ h. tt), λ h. ((refl, tt), tt))

-- A queue whose owner listens to everything.
abbrev pub queue : MsgbufHead
queue = record {
  ev_hndl = record {
    has_add = true;
    has_rm = true;
    has_empty = true;
    has_nonempty = true;
    has_full = true;
    has_nonfull = true;
  };
  wnd = 4;
  size = 5;
  waiters = 0;
  head = tree ∷ leaf ∷ [];
}

pub queue-IsHead : IsHead queue
queue-IsHead = record { counted = refl; small = omega arith; window = omega arith }
