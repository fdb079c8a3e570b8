-- ===== src/Reports/Aggregate/Tally.antt =====
-- One pass over the systems counts what separate counts of them would.
use Prim.Native.Nat.{◌/◌}
use quipucords.Prelude.{
  String, ℕ, ◌+◌, ◌≡◌, refl, Bool, true, false, not, ◌&&◌, ◌||◌, List, [], ◌∷◌, length, ◌++◌,
  select, if◌then◌else◌, ◌==◌, nat_eq, none, some, arith, string_eq,
}
use quipucords.Prelude.Dict.{Dict, insert, lookup-insert}
use quipucords.Reports.Aggregate.{
  count_os, versions_of, count_in, or_unknown, add_date, SystemFingerprint, Aggregated, is_counted,
  is_kind, has_source, product_present, count_fingerprint, count_fingerprints,
}

-- The sum of what each system brings.
abbrev pub sum_of : (SystemFingerprint → ℕ) → List SystemFingerprint → ℕ
sum_of f [] = 0
sum_of f (fp ∷ fps) = f fp + sum_of f fps

-- What one system brings to a counter, if it is counted and a test holds.
abbrev pub one_if : (SystemFingerprint → Bool) → SystemFingerprint → ℕ
one_if test fp = if is_counted fp && test fp then 1 else 0

abbrev pub counter : (SystemFingerprint → Bool) → List SystemFingerprint → ℕ
counter test fps = length (select (λ fp. is_counted fp && test fp) fps)

pub sum_of-one_if :
    (test : SystemFingerprint → Bool) (fps : List SystemFingerprint)
    → sum_of (one_if test) fps ≡ counter test fps
sum_of-one_if test [] = refl
sum_of-one_if test (fp ∷ fps) = ground (arith, sum_of-one_if test fps)

-- A counter to which each system adds its share ends with the sum of the shares.
pub count_fingerprints-sum :
    (get : Aggregated → ℕ) (share : SystemFingerprint → ℕ)
    → ((fp : SystemFingerprint) (a : Aggregated) → get (count_fingerprint fp a) ≡ get a + share fp)
    → (fps : List SystemFingerprint) (a : Aggregated)
    → get (count_fingerprints fps a) ≡ get a + sum_of share fps
unfolding count_fingerprints
count_fingerprints-sum get share step [] a = omega arith
count_fingerprints-sum get share step (fp ∷ fps) a =
    omega (arith, count_fingerprints-sum get share step fps (count_fingerprint fp a), step fp a)

-- What one system brings to a counter that adds up numbers.
abbrev pub amount_if : (SystemFingerprint → Bool) → (SystemFingerprint → ℕ) → SystemFingerprint → ℕ
amount_if test f fp = if is_counted fp && test fp then f fp else 0

abbrev pub is_virtual : SystemFingerprint → Bool
is_virtual fp = is_kind "virtualized" fp

abbrev pub is_physical : SystemFingerprint → Bool
is_physical fp = not (is_virtual fp) && is_kind "bare_metal" fp

abbrev pub is_hypervisor : SystemFingerprint → Bool
is_hypervisor fp = not (is_virtual fp) && not (is_kind "bare_metal" fp) && is_kind "hypervisor" fp

abbrev pub is_other : SystemFingerprint → Bool
is_other fp = not (is_virtual fp) && not (is_kind "bare_metal" fp) && not (is_kind "hypervisor" fp)

abbrev pub has_product : String → SystemFingerprint → Bool
has_product name fp = product_present name false fp.products

abbrev pub cores : SystemFingerprint → ℕ
cores fp = fp.cpu_core_count

abbrev pub vcpus : SystemFingerprint → ℕ
vcpus fp = fp.cpu_count

-- `ceil(cpu_socket_count / 2)`
abbrev pub pairs : SystemFingerprint → ℕ
pairs fp = (fp.cpu_socket_count + 1) / 2

abbrev pub any_system : SystemFingerprint → Bool
any_system fp = true

abbrev pub both : (SystemFingerprint → Bool) → (SystemFingerprint → Bool) → SystemFingerprint → Bool
both p q fp = p fp && q fp

abbrev pub lacks_cores : SystemFingerprint → Bool
lacks_cores fp = (fp.cpu_core_count == 0) && (has_source "network" fp || has_source "satellite" fp)

abbrev pub lacks_sockets : SystemFingerprint → Bool
lacks_sockets fp = fp.cpu_socket_count == 0

abbrev pub lacks_name : SystemFingerprint → Bool
lacks_name fp = fp.name == ""

abbrev pub lacks_date : SystemFingerprint → Bool
lacks_date fp = elim fp.system_creation_date [ none ↦ true | some d ↦ false ]

abbrev pub lacks_purpose : SystemFingerprint → Bool
lacks_purpose fp = has_source "network" fp && not fp.has_system_purpose

abbrev pub lacks_certs : SystemFingerprint → Bool
lacks_certs fp = has_source "network" fp && not fp.has_redhat_certs

abbrev pub is_uncounted : SystemFingerprint → ℕ
is_uncounted fp = if is_counted fp then 0 else 1

abbrev pub total_of :
    (SystemFingerprint → Bool) → (SystemFingerprint → ℕ) → List SystemFingerprint → ℕ
total_of test amount fps = sum_of amount (select (both is_counted test) fps)

pub sum_of-amount_if :
    (test : SystemFingerprint → Bool) (amount : SystemFingerprint → ℕ)
    (fps : List SystemFingerprint)
    → sum_of (amount_if test amount) fps ≡ total_of test amount fps
sum_of-amount_if test amount [] = refl
sum_of-amount_if test amount (fp ∷ fps) = ground (arith, sum_of-amount_if test amount fps)

-- The number beside a name and a version.
abbrev pub os_count : String → String → Dict String (Dict String ℕ) → ℕ
os_count name version d = count_in version (versions_of name d)

abbrev pub is_os : String → String → SystemFingerprint → Bool
is_os name version fp = (or_unknown fp.os_name == name) && (or_unknown fp.os_version == version)

-- Systems are counted by their operating system whether they are Red Hat or not.
abbrev pub one_os : String → String → SystemFingerprint → ℕ
one_os name version fp = if is_os name version fp then 1 else 0

pub sum_of-one_os :
    (name version : String) (fps : List SystemFingerprint)
    → sum_of (one_os name version) fps ≡ length (select (is_os name version) fps)
sum_of-one_os name version [] = refl
sum_of-one_os name version (fp ∷ fps) = ground (arith, sum_of-one_os name version fps)

pub os_count-count_os :
    (n v name version : String) (d : Dict String (Dict String ℕ))
    → os_count name version (count_os n v d)
      ≡ os_count name version d + (if (n == name) && (v == version) then 1 else 0)
unfolding count_os
os_count-count_os n v name version d = ground (
  arith,
  lookup-insert n name (insert v (count_in v (versions_of n d) + 1) (versions_of n d)) d,
  lookup-insert v version (count_in v (versions_of n d) + 1) (versions_of n d),
  string_eq.beq_iff n name,
  string_eq.beq_iff v version,
)

-- The dates of the systems that are counted.
abbrev pub dates_of : List SystemFingerprint → List ℕ
dates_of [] = []
dates_of (fp ∷ fps) =
    if is_counted fp then add_date fp.system_creation_date [] ++ dates_of fps else dates_of fps
