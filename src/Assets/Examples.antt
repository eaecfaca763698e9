-- ===== src/Assets/Examples.antt =====
-- Two devices on one address: a lease that ends before the next one starts, and a renewal.
use cernityndr.Base.{String, true, ◌≡◌, refl, some, none, List, [], ◌∷◌, any}
use cernityndr.Assets.{Lease, owner_at, ownership_intervals, record_binding, resolve_mac}
use cernityndr.Assets.Plot.{holds, is_owner}
use cernityndr.Assets.Cache.{rebuild_ip_ownership, subject}
use cernityndr.Assets.Gives.{gives}
use cernityndr.Assets.Rebuild.{record_all, rebuild_ip_ownership-resolve_mac}
use cernityndr.Assets.Exact.{ownership_intervals_exact}

abbrev laptop : Lease
laptop = record { mac = "aa:01"; valid_from = 100; expires = some 200; obs_id = "o1"; src = "dhcp" }

abbrev renewal : Lease
renewal = record laptop { valid_from = 200; expires = some 300; obs_id = "o2" }

abbrev printer : Lease
printer = record { mac = "bb:02"; valid_from = 400; expires = none; obs_id = "o3"; src = "arp" }

abbrev leases : List Lease
leases = printer ∷ laptop ∷ renewal ∷ []

two_intervals :
    ownership_intervals "10.0.0.7" leases
    ≡ record {
      mac = "aa:01";
      value = "10.0.0.7";
      valid_from = 100;
      valid_to = some 300;
      evidence = some laptop;
    }
      ∷ record {
        mac = "bb:02";
        value = "10.0.0.7";
        valid_from = 400;
        valid_to = none;
        evidence = some printer;
      }
      ∷ []
unfolding ownership_intervals
two_intervals = refl

nobody : owner_at leases 350 ≡ none
unfolding owner_at
nobody = refl

resolved :
    resolve_mac
      (record_binding (record_binding [] "10.0.0.7" laptop) "10.0.0.7" laptop)
      "10.0.0.7"
      150
    ≡ some "aa:01"
unfolding resolve_mac record_binding
resolved = refl

ownership_intervals_exact_example :
    any (holds "aa:01" 250) (ownership_intervals "10.0.0.7" leases)
    ≡ is_owner "aa:01" (owner_at leases 250)
ownership_intervals_exact_example = ownership_intervals_exact "10.0.0.7" leases "aa:01" 250

abbrev records : List (String × Lease)
records = ("10.0.0.7", printer) ∷ ("10.0.0.8", laptop) ∷ ("10.0.0.7", laptop) ∷ []

given : gives "10.0.0.7" 150 (rebuild_ip_ownership (record_all [] records)) (subject "aa:01") ≡ true
unfolding rebuild_ip_ownership record_all
given = refl

rebuild_ip_ownership-resolve_mac_example :
    gives "10.0.0.7" 150 (rebuild_ip_ownership (record_all [] records)) (subject "aa:01")
    ≡ is_owner "aa:01" (resolve_mac (record_all [] records) "10.0.0.7" 150)
rebuild_ip_ownership-resolve_mac_example =
    rebuild_ip_ownership-resolve_mac records "10.0.0.7" "aa:01" 150
