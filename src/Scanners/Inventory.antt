-- ===== src/Scanners/Inventory.antt =====
-- `construct_inventory` and what it calls, and `expand_hostpattern`
-- (quipucords/scanner/network/utils.py). The decryption of passwords, the network notations and the
-- patterns of Ansible are parameters, and so is the text of a group's number.
pub mod Groups
use Prim.Native.String.{◌++◌ as text_append}
use quipucords.Prelude.{
  take, drop, ℕ, zero, suc, ◌+◌, ◌-◌, String, Bool, true, false, not, Option, none, some, List, [],
  ◌∷◌, ◌++◌, ◌==◌, nat_eq, string_eq, if◌then◌else◌, length, contains, any, is_some, ◌||◌,
}
use quipucords.Prelude.Dict.{Dict, lookup, insert}
use quipucords.Text.{codes, occurs}
use quipucords.Json.{Value, null, str, int, obj, truthy, Members, no_members, member}
use quipucords.Fingerprint.Model.{Result, ok, err, ◌>>=◌, value_error, type_error}
use quipucords.Products.Values.{Facts, get}

-- `or` of two values.
abbrev or_value : Value → Value → Value
or_value a b = if truthy a then a else b

abbrev set_if : Bool → String → Value → Facts → Facts
set_if true k v vars = insert k v vars
set_if false k v vars = vars

unfoldable pub credential_vars : (Value → Value) → Facts → Facts
credential_vars decrypt credential =
    let ssh_keyfile =
      or_value (get "generated_ssh_keyfile" credential) (get "ssh_keyfile" credential) in
    let password = get "password" credential in
    let become_password = get "become_password" credential in
    let become_method = get "become_method" credential in
    let become_user = get "become_user" credential in
    set_if (truthy become_user) "ansible_become_user" become_user (
      set_if (truthy become_method) "ansible_become_method" become_method (
        set_if (truthy become_password) "ansible_become_pass" (decrypt become_password) (
          set_if (truthy ssh_keyfile) "ansible_ssh_private_key_file" ssh_keyfile (
            set_if (truthy password) "ansible_ssh_pass" (decrypt password)
              (("ansible_user", get "username" credential) ∷ [])))))

abbrev update : Facts → Facts → Facts
update [] vars = vars
update ((k, v) ∷ more) vars = update more (insert k v vars)

unfoldable pub construct_vars : (Value → Value) → Value → Option Facts → Facts
construct_vars decrypt connection_port credential = elim credential [
  | none ↦ ("ansible_port", connection_port) ∷ []
  | some c ↦ update (credential_vars decrypt c) (("ansible_port", connection_port) ∷ [])
]

-- A host by its name, or a host with its credential.
pub record Host : Type 0 where
  pub name : String
  pub credential : Option Facts

unfoldable pub get_host_vars : (Value → Value) → Host → String × Facts
get_host_vars decrypt host = (
  host.name,
  insert "ansible_host" (str host.name)
      (elim host.credential [ none ↦ [] | some c ↦ credential_vars decrypt c ]),
)

abbrev pub format_loop : (Value → Value) → List Host → Dict String Facts → Dict String Facts
format_loop decrypt [] hosts = hosts
format_loop decrypt (h ∷ group) hosts =
    let vars = get_host_vars decrypt h in format_loop decrypt group (insert vars.0 vars.1 hosts)

unfoldable pub format_hosts_dict : (Value → Value) → List Host → Dict String Facts
format_hosts_dict decrypt group = format_loop decrypt group []

module _ {ℓ} {A : Type ℓ} where
  -- The slices from the places that `range(0, len(hosts), concurrency_count)` counts; there are at
  -- most as many as hosts.
  abbrev pub slices : ℕ → ℕ → List A → List (List A)
  slices fuel count [] = []
  slices zero count (x ∷ xs) = []
  slices (suc fuel) count (x ∷ xs) =
      let rest = slices fuel count (drop count (x ∷ xs)) in take count (x ∷ xs) ∷ rest

  -- `range` raises `ValueError` for a step of 0.
  unfoldable pub concurrency_groups : ℕ → List A → Result (List (List A))
  concurrency_groups zero hosts = err value_error
  concurrency_groups (suc c) hosts = ok (slices (length hosts) (suc c) hosts)

-- The groups with their names, and the inventory's entries for them.
pub record Inventory : Type 0 where
  pub group_names : List String
  pub children : Dict String (Dict String Facts)
  pub vars : Facts

abbrev group_loop :
    (ℕ → String)
    → (Value → Value)
    → ℕ
    → List (List Host)
    → List String
    → Dict String (Dict String Facts)
    → List String × Dict String (Dict String Facts)
group_loop name_of decrypt index [] names children = (names, children)
group_loop name_of decrypt index (g ∷ groups) names children =
    let name = text_append "group_" (name_of index) in
    group_loop name_of decrypt (suc index) groups (names ++ (name ∷ []))
      (insert name (format_hosts_dict decrypt g) children)

abbrev has_credential : Host → Bool
has_credential h = is_some h.credential

abbrev is_named : String → Host → Bool
is_named name h = h.name == name

-- `set(hosts) - set(exclude_hosts)`, in the order of the list.
abbrev difference : List String → List Host → List Host → List Host
difference excluded [] done = done
difference excluded (h ∷ hosts) done =
    difference excluded hosts
      (if contains h.name excluded || any (is_named h.name) done then done else done ++ (h ∷ []))

-- The hosts that remain: a host with a credential, which is a dict, cannot be put into a set.
unfoldable pub remaining : Option (List String) → List Host → Result (List Host)
remaining none hosts = ok hosts
remaining (some excluded) hosts =
    if any has_credential hosts then err type_error else ok (difference excluded hosts [])

unfoldable pub construct_inventory :
    (ℕ → String)
    → (Value → Value)
    → List Host
    → Value
    → ℕ
    → Option Facts
    → Option (List String)
    → Result Inventory
construct_inventory name_of decrypt hosts connection_port concurrency_count credential
      exclude_hosts =
    remaining exclude_hosts hosts >>= concurrency_groups concurrency_count >>= λ groups.
    let made = group_loop name_of decrypt 0 groups [] [] in
    ok (record {
      group_names = made.0;
      children = made.1;
      vars = construct_vars decrypt connection_port credential;
    })

-- What the patterns of hosts need: the hosts of a network, if the text is one; whether a text has a
-- range of Ansible, and its hosts; and a text without its port. `none` stands for an exception.
pub record Notations : Type 0 where
  pub network_hosts : String → Option (List String)
  pub detect_range : String → Bool
  pub expand_hostname_range : String → Option (List String)
  pub parse_address : String → Option String

abbrev pub expand_cidr : Notations → String → Option (List String)
expand_cidr n pattern = if occurs (codes "/") (codes pattern) then n.network_hosts pattern else none

abbrev pub expand_ansible_range : Notations → String → Option (List String)
expand_ansible_range n pattern =
    if n.detect_range pattern then n.expand_hostname_range pattern else none

abbrev pub strip_port : Notations → String → String
strip_port n hostpattern = elim (n.parse_address hostpattern) [ some p ↦ p | none ↦ hostpattern ]

-- `if expanded := ...`: a list that is there and not empty.
abbrev pub or_hosts : Option (List String) → List String → List String
or_hosts none hosts = hosts
or_hosts (some []) hosts = hosts
or_hosts (some (h ∷ hs)) hosts = h ∷ hs

unfoldable pub expand_hostpattern : Notations → String → List String
expand_hostpattern n hostpattern =
    let pattern = strip_port n hostpattern in
    or_hosts (expand_cidr n hostpattern) (or_hosts (expand_ansible_range n pattern) (pattern ∷ []))
