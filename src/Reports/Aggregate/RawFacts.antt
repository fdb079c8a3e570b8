-- ===== src/Reports/Aggregate/RawFacts.antt =====
-- `_aggregate_from_raw_facts` (quipucords/api/aggregate_report/model.py). A raw fact is what the function
-- reads of it: a list or an object that is missing is empty, and a key that is missing is `none`.
use quipucords.Prelude.{
  ℕ, ◌+◌, String, Bool, false, Option, none, some, List, [], ◌∷◌, ◌++◌, ◌==◌, string_eq,
  if◌then◌else◌, length,
}
use quipucords.Prelude.Dict.{Dict, insert}
use quipucords.Fingerprint.Sources.{SourceType, ansible, openshift}
use quipucords.Reports.Aggregate.{count_in}
use quipucords.Reports.Aggregate.Totals.{distinct}

-- An operator of a cluster, with its kind and its name.
pub record Operator : Type 0 where
  pub kind : Option String
  pub name : Option String

pub record RawFact : Type 0 where
  pub host_names : List (Option String)
  pub unique_hosts : List String
  pub cluster_kind : Option String
  pub node_kind : Option String
  pub operators : List Operator

-- The four collections of the loop, and the two counters that it raises in the report.
pub record RawTotals : Type 0 where
  pub ansible_hosts_in_database : List String
  pub ansible_hosts_in_jobs : List String
  pub openshift_operators_by_kind : Dict String ℕ
  pub openshift_operators_by_name : Dict String ℕ
  pub openshift_cluster_instances : ℕ
  pub openshift_node_instances : ℕ

unfoldable pub no_totals : RawTotals
no_totals = record {
  ansible_hosts_in_database = [];
  ansible_hosts_in_jobs = [];
  openshift_operators_by_kind = [];
  openshift_operators_by_name = [];
  openshift_cluster_instances = 0;
  openshift_node_instances = 0;
}

-- `[host.get("name") for host in hosts if host.get("name")]`
abbrev pub named : List (Option String) → List String
named [] = []
named (none ∷ hosts) = named hosts
named (some n ∷ hosts) = if n == "" then named hosts else n ∷ named hosts

abbrev pub get_or_unknown : Option String → String
get_or_unknown none = "unknown"
get_or_unknown (some s) = s

abbrev pub is_text : String → Option String → Bool
is_text s none = false
is_text s (some t) = t == s

-- `counts[key] += 1`
abbrev pub count_key : String → Dict String ℕ → Dict String ℕ
count_key key counts = insert key (count_in key counts + 1) counts

unfoldable pub count_operators : List Operator → RawTotals → RawTotals
count_operators [] t = t
count_operators (o ∷ rest) t = count_operators rest (record t {
  openshift_operators_by_kind = count_key (get_or_unknown o.kind) t.openshift_operators_by_kind;
  openshift_operators_by_name = count_key (get_or_unknown o.name) t.openshift_operators_by_name;
})

abbrev pub count_instance : RawFact → RawTotals → RawTotals
count_instance f t =
    if is_text "cluster" f.cluster_kind
    then record t { openshift_cluster_instances = t.openshift_cluster_instances + 1 }
    else if is_text "node" f.node_kind
    then record t { openshift_node_instances = t.openshift_node_instances + 1 }
    else t

unfoldable pub count_raw_fact : SourceType → RawFact → RawTotals → RawTotals
count_raw_fact ansible f t = record t {
  ansible_hosts_in_database = t.ansible_hosts_in_database ++ named f.host_names;
  ansible_hosts_in_jobs = t.ansible_hosts_in_jobs ++ f.unique_hosts;
}
count_raw_fact openshift f t = count_operators f.operators (count_instance f t)
count_raw_fact _ f t = t

unfoldable pub count_raw_facts : SourceType → List RawFact → RawTotals → RawTotals
count_raw_facts s [] t = t
count_raw_facts s (f ∷ fs) t = count_raw_facts s fs (count_raw_fact s f t)

unfoldable pub count_groups : List (SourceType × List RawFact) → RawTotals → RawTotals
count_groups [] t = t
count_groups ((s, fs) ∷ groups) t = count_groups groups (count_raw_facts s fs t)

-- The sizes of the three sets of Ansible hosts.
pub record AnsibleHosts : Type 0 where
  pub hosts_all : ℕ
  pub hosts_in_database : ℕ
  pub hosts_in_jobs : ℕ

unfoldable pub ansible_hosts : RawTotals → AnsibleHosts
ansible_hosts t =
    let in_database = distinct t.ansible_hosts_in_database [] in
    let in_jobs = distinct t.ansible_hosts_in_jobs [] in
    record {
      hosts_all = length (distinct in_jobs in_database);
      hosts_in_database = length in_database;
      hosts_in_jobs = length in_jobs;
    }
