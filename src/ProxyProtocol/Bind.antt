-- ===== src/ProxyProtocol/Bind.antt =====
-- Results of the readers of proxyprotocol.go.
use mc_router.Prelude.{◌≡◌, refl, bytes_Eq}
use mc_router.ProxyProtocol.{Result, ok, err, ◌>>=◌}

-- A step that succeeds behind another succeeds with what the other gave.
pub bind_ok {ℓ κ} :
    {A : Type ℓ} {B : Type κ} (m : Result A) (f : A → Result B) (b : B)
    → (m >>= f) ≡ ok b
    → (a : A) × (m ≡ ok a) × (f a ≡ ok b)
bind_ok (ok a) f b h = (a, refl, h)
bind_ok (err e) f b h = cc
