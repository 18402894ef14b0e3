-- ===== src/Detector/Found.antt =====
-- What a scan finds.
use disco.Base.{
  Str, Str_eq, ℤ, List, [], ◌∷◌, Option, none, some, ◌≡◌, refl, In, here, there, ◌⊎◌, inl, inr,
  Option-cases, Bool-cases, ◌≟◌, subst, if◌then◌else◌, sym,
}
use disco.Dict.{Dict, insert, values}
use disco.Net.{host_port}
use disco.Detector.{FoundService, Detector, scan_ports, scan_services, scan, get_services}

-- The service is mapped to the port, which takes connections at the address.
abbrev pub IsOpen : (ℤ → Option Str) → Dict Str (List ℤ) → FoundService → Type 0
IsOpen check mapping svc =
    (ports : List ℤ) × In (svc.name, ports) mapping
    × In svc.port ports
    × (check svc.port ≡ some svc.addr)

replaced : (v w x : FoundService) (ys : List FoundService) → In x (v ∷ ys) → (x ≡ v) ⊎ In x (w ∷ ys)
replaced v w x ys (here e) = inl e
replaced v w x ys (there i) = inr (there i)

passed :
    (v w x : FoundService) (ys zs : List FoundService)
    → (In x zs → (x ≡ v) ⊎ In x ys)
    → In x (w ∷ zs)
    → (x ≡ v) ⊎ In x (w ∷ ys)
passed v w x ys zs f (here e) = inr (here e)
passed v w x ys zs f (there i) = elim (f i) [ inl e ↦ inl e | inr j ↦ inr (there j) ]

In-values-insert :
    (k : Str) (v x : FoundService) (m : Dict Str FoundService)
    → In x (values (insert k v m))
    → (x ≡ v) ⊎ In x (values m)
unfolding insert values
In-values-insert k v x [] (here e) = inl e
In-values-insert k v x [] (there i) = elim i [ ]
In-values-insert k v x ((j, w) ∷ m) i = elim (Bool-cases (j ≟ k)) [
  | inl e ↦
      replaced v w x (values m)
        (subst (λ b. In x (values (if b then (k, v) ∷ m else (j, w) ∷ insert k v m))) e i)
  | inr e ↦
      passed v w x (values m) (values (insert k v m)) (In-values-insert k v x m)
        (subst (λ b. In x (values (if b then (k, v) ∷ m else (j, w) ∷ insert k v m))) e i)
]

-- The services once a port is checked.
abbrev add_found : Str → ℤ → Option Str → Dict Str FoundService → Dict Str FoundService
add_found name port o m = elim o [
  | none ↦ m
  | some addr ↦ insert (host_port name port) (record { name = name; port = port; addr = addr }) m
]

module _ (check : ℤ → Option Str) (mapping : Dict Str (List ℤ)) where
  -- Every service that is found is open.
  abbrev AllOpen : Dict Str FoundService → Type 0
  AllOpen m = (x : FoundService) → In x (values m) → IsOpen check mapping x

  AllOpen-add_found :
      (name : Str) (ports : List ℤ) (port : ℤ) (m : Dict Str FoundService)
      → In (name, ports) mapping
      → In port ports
      → AllOpen m
      → AllOpen (add_found name port (check port) m)
  AllOpen-add_found name ports port m place within before y j = elim (Option-cases (check port)) [
    | inl e ↦ before y (subst (λ o. In y (values (add_found name port o m))) e j)
    | inr (addr, e) ↦
        elim (In-values-insert (host_port name port) _ y m
          (subst (λ o. In y (values (add_found name port o m))) e j)) [
            | inl same ↦ subst (IsOpen check mapping) (sym same) (ports, place, within, e)
            | inr old ↦ before y old
          ]
  ]

  AllOpen-scan_ports :
      (name : Str) (ports rest : List ℤ) (m : Dict Str FoundService)
      → In (name, ports) mapping
      → ((p : ℤ) → In p rest → In p ports)
      → AllOpen m
      → AllOpen (scan_ports check name rest m)
  unfolding scan_ports
  AllOpen-scan_ports name ports [] m place within before = before
  AllOpen-scan_ports name ports (port ∷ rest) m place within before =
      AllOpen-scan_ports name ports rest (add_found name port (check port) m) place
        (λ p j. within p (there j))
        (AllOpen-add_found name ports port m place (within port (here refl)) before)

  AllOpen-scan_services :
      (rest : Dict Str (List ℤ)) (m : Dict Str FoundService)
      → ((e : Str × List ℤ) → In e rest → In e mapping)
      → AllOpen m
      → AllOpen (scan_services check rest m)
  unfolding scan_services
  AllOpen-scan_services [] m within before = before
  AllOpen-scan_services ((name, ports) ∷ rest) m within before =
      AllOpen-scan_services rest (scan_ports check name ports m) (λ e j. within e (there j))
        (AllOpen-scan_ports name ports ports m (within (name, ports) (here refl)) (λ p j. j) before)

-- After a scan, every service that is given out is one of the configured services at one of its
-- ports, which took a connection, with the address of that connection: nothing of an earlier scan is
-- kept.
pub get_services-scan :
    (check : ℤ → Option Str) (d : Detector) (x : FoundService)
    → In x (get_services (scan check d))
    → IsOpen check d.port_mapping x
unfolding get_services scan values
get_services-scan check d x i =
    AllOpen-scan_services check d.port_mapping d.port_mapping [] (λ e j. j) (λ y j. elim j [ ]) x i
