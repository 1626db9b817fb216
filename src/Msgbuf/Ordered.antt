-- ===== src/Msgbuf/Ordered.antt =====
-- Messages of which a prefix is sent.
use proxyio.Base.{◌+◌, ◌<◌, ◌≡◌, refl, ◌++◌, drop, length, arith, length-append, length-drop}
use proxyio.Msgbuf.Frame.{msghdr_size, msghdr_bytes}
use proxyio.Msgbuf.{Msgbuf, msgbuf, Msgs, nil, cons}
use proxyio.Msgbuf.Tree.{size, sizes, IsMessage, AreMessages, unsent, unsents, length-base}

-- Nothing of it is sent.
abbrev mutual
  pub IsUntouched : Msgbuf → Type 0
  IsUntouched (msgbuf s h u cs) = (s ≡ 0) × AreUntouched cs

  pub AreUntouched : Msgs → Type 0
  AreUntouched nil = Unit {0}
  AreUntouched (cons c cs) = IsUntouched c × AreUntouched cs

-- What is sent is a prefix: behind a byte that is not sent, nothing is.
abbrev mutual
  pub IsOrdered : Msgbuf → Type 0
  IsOrdered (msgbuf s h u cs) = AreOrdered cs × (s < msghdr_size + h.ulen → AreUntouched cs)

  pub AreOrdered : Msgs → Type 0
  AreOrdered nil = Unit {0}
  AreOrdered (cons c cs) = IsOrdered c × AreOrdered cs × (0 < length (unsent c) → AreUntouched cs)

mutual
  pub length-unsent : (m : Msgbuf) → IsMessage m → IsUntouched m → length (unsent m) ≡ size m
  length-unsent (msgbuf s h u cs) v t = omega (
    arith,
    length-append (drop s (msghdr_bytes h ++ u)) (unsents cs),
    length-unsents cs v.6 t.1,
    length-drop s (msghdr_bytes h ++ u),
    length-base h u v.1,
  )

  pub length-unsents :
      (cs : Msgs) → AreMessages cs → AreUntouched cs → length (unsents cs) ≡ sizes cs
  length-unsents nil v t = refl
  length-unsents (cons c cs) v t = omega (
    arith,
    length-append (unsent c) (unsents cs),
    length-unsent c v.0 t.0,
    length-unsents cs v.1 t.1,
  )
