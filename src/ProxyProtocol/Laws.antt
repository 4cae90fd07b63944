-- ===== src/ProxyProtocol/Laws.antt =====
-- The layout of the PROXY headers that proxyprotocol.go accepts, and where they end.
use mc_router.Prelude.{◌≢◌, ◌≡◌, inl, inr, arith, [], ◌∷◌, Bytes, Bool-cases, nat_eq, bytes_Eq}
use mc_router.Go.Text.{byte_at}
use mc_router.Go.Netip.{Addr}
use mc_router.ProxyProtocol.{ok, read}
use mc_router.ProxyProtocol.Line.{IsLine, read_v1-IsLine}
use mc_router.ProxyProtocol.Block.{IsBlock, read_v2-IsBlock}

-- A header of either version, as the first byte of the stream tells.
pub data IsHeader (s : Bytes) (a : Addr) (rest : Bytes) : Type 0 where
  version1 : byte_at 0 s ≡ 80 → IsLine s a rest → IsHeader s a rest
  version2 : byte_at 0 s ≢ 80 → IsBlock s a rest → IsHeader s a rest

-- A PROXY header that is accepted is one line of at most 108 bytes, up to the first end of a line in
-- the stream, or the signature of version 2 with a payload of exactly the length that it gives, 512
-- bytes at most; the source comes from that line or payload, and what is handed on is all that follows
-- the header in the stream, no byte more or less.
pub read-IsHeader :
    (s : Bytes) (a : Addr) (rest : Bytes) → read s ≡ ok (a, rest) → IsHeader s a rest
unfolding read
read-IsHeader [] a rest h = cc
read-IsHeader (first ∷ s) a rest h = elim (Bool-cases (nat_eq first b'P')) [
  | inl e ↦ version1 ground (arith, e) (read_v1-IsLine first s a rest ground (arith, e, h))
  | inr e ↦
      version2 (λ q. ground (arith, e, q)) (read_v2-IsBlock first s a rest ground (arith, e, h))
]
