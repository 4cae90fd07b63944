-- ===== src/Examples/Hostnames.antt =====
-- Host names.
use mc_router.Prelude.{◌≡◌, ◌↔◌, refl, some, Bytes, codes}
use mc_router.HostAddr.{normalize}
use mc_router.HostAddr.Laws.{IsCanonical, normalize-IsCanonical, normalize-fixed_iff}

abbrev shouted : Bytes
shouted = codes "Play.Example.NET."

abbrev plain : Bytes
plain = codes "play.example.net"

shouted-normal : normalize shouted ≡ some plain
unfolding normalize mc_router.Go.Text.trim_suffix mc_router.Go.Text.to_lower
    mc_router.Go.Text.trim_space mc_router.Go.Text.before mc_router.Go.Utf8.utf8_valid
    mc_router.Go.Netip.parse_ip mc_router.Go.Text.trim_prefix mc_router.Go.Ipv4.parse_ipv4
    mc_router.Go.Text.split
shouted-normal = refl

normalize-IsCanonical_example : IsCanonical plain
normalize-IsCanonical_example = normalize-IsCanonical shouted plain shouted-normal

normalize-fixed_iff_example : (normalize plain ≡ some plain) ↔ IsCanonical plain
normalize-fixed_iff_example = normalize-fixed_iff plain
