-- ===== src/Generator/Tree.antt =====
-- The MIB tree of the generator: `Node` of generator/net_snmp.go, and `metricType`, `metricAccess`,
-- `searchNodeTree` and `getMetricNode` of generator/tree.go.
pub mod Search
use snmp_exporter.Common.{
  ℕ, ◌≡◌, Bool, true, false, not, ◌&&◌, ◌||◌, List, [], ◌∷◌, ◌++◌, arith, ltb, ◌==◌, if◌then◌else◌,
  Option, some, none, ◌>>=◌,
}
use snmp_exporter.Common.Int.{ℤ}
use snmp_exporter.Common.Text.{Bytes, equal, has_prefix, text}
use snmp_exporter.Collector.Index.{EnumMap}
use snmp_exporter.Generator.Minimize.{dotted}

-- A `Node` without its children, with its address in the place of a pointer to it.
pub record NodeInfo : Type 0 where
  pub address : ℕ
  pub oid : Bytes
  pub subid : ℤ
  pub mib : Bytes  -- `Module`
  pub label : Bytes
  pub augments : Bytes
  pub description : Bytes
  pub typ : Bytes
  pub hint : Bytes
  pub textual_convention : Bytes
  pub fixed_size : ℤ
  pub units : Bytes
  pub access : Bytes
  pub enum_values : EnumMap
  pub indexes : List Bytes
  pub implied_index : Bool

mutual
  pub data Node : Type 0 where
    node : NodeInfo → Nodes → Node

  pub data Nodes : Type 0 where
    nil : Nodes
    cons : Node → Nodes → Nodes

abbrev pub one_of : Bytes → List Bytes → Bool
one_of x [] = false
one_of x (y ∷ l) = equal x y || one_of x l

-- `combinedTypes`: the type that stands before a combined one.
unfoldable pub combined_types : Bytes → Option Bytes
combined_types t =
    if equal t (text "InetAddress")
    then some (text "InetAddressType")
    else if equal t (text "InetAddressMissingSize")
    then some (text "InetAddressType")
    else if equal t (text "LldpPortId")
    then some (text "LldpPortIdSubtype")
    else none

-- `metricType`; `none` is its `("", false)`.
unfoldable pub metric_type : Bytes → Option Bytes
unfolding combined_types
metric_type t = elim (combined_types t) [
  | some subtype ↦ some t
  | none ↦
      if one_of t (
        text "gauge"
        ∷ text "INTEGER"
        ∷ text "GAUGE"
        ∷ text "TIMETICKS"
        ∷ text "UINTEGER"
        ∷ text "UNSIGNED32"
        ∷ text "INTEGER32"
        ∷ [])
      then some (text "gauge")
      else if one_of t (text "counter" ∷ text "COUNTER" ∷ text "COUNTER64" ∷ [])
      then some (text "counter")
      else if one_of t (text "OctetString" ∷ text "OCTETSTR" ∷ text "OBJID" ∷ [])
      then some (text "OctetString")
      else if equal t (text "BITSTRING")
      then some (text "Bits")
      else if one_of t
          (text "InetAddressIPv4" ∷ text "IpAddr" ∷ text "IPADDR" ∷ text "NETADDR" ∷ [])
      then some (text "InetAddressIPv4")
      else if one_of t (
          text "PhysAddress48"
          ∷ text "DisplayString"
          ∷ text "Float"
          ∷ text "Double"
          ∷ text "InetAddressIPv6"
          ∷ [])
      then some t
      else if equal t (text "DateAndTime")
      then some t
      else if equal t (text "ParseDateAndTime")
      then some t
      else if equal t (text "NTPTimeStamp")
      then some t
      else if one_of t (text "EnumAsInfo" ∷ text "EnumAsStateSet" ∷ [])
      then some t
      else none
]

unfoldable pub metric_access : Bytes → Bool
metric_access a = one_of a (
    text "ACCESS_READONLY"
    ∷ text "ACCESS_READWRITE"
    ∷ text "ACCESS_CREATE"
    ∷ text "ACCESS_NOACCESS"
    ∷ [])

abbrev pub info : Node → NodeInfo
info (node i children) = i

abbrev pub covers : Bytes → NodeInfo → Bool
covers oid i = has_prefix (dotted oid) (dotted i.oid)

-- `searchNodeTree`, and its loop over the children: the first that has a match.
unfoldable mutual
  pub search_node_tree : Bytes → Node → Option NodeInfo
  search_node_tree oid (node i children) =
      if not (has_prefix (dotted oid) (dotted i.oid))
      then none
      else (elim (search_children oid children) [ some match ↦ some match | none ↦ some i ])

  pub search_children : Bytes → Nodes → Option NodeInfo
  search_children oid nil = none
  search_children oid (cons child rest) = elim (search_node_tree oid child) [
    | some match ↦ some match
    | none ↦ search_children oid rest
  ]

-- `oidMetricType`.
pub data OidMetricType : Type 0 where
  oid_not_found oid_scalar oid_instance oid_subtree : OidMetricType

abbrev pub is_empty : List Bytes → Bool
is_empty [] = true
is_empty (x ∷ l) = false

unfoldable pub is_metric : NodeInfo → Bool
is_metric n = elim (metric_type n.typ) [ some t ↦ metric_access n.access | none ↦ false ]

-- `getMetricNode`, over the lookup of the map from names and OIDs to nodes.
unfoldable pub get_metric_node :
    Bytes → Node → (Bytes → Option NodeInfo) → Option NodeInfo × OidMetricType
unfolding is_metric
get_metric_node oid tree name_to_node = elim (name_to_node oid) [
  | some n ↦
      if is_metric n && is_empty n.indexes then (some n, oid_scalar) else (some n, oid_subtree)
  | none ↦ elim (search_node_tree oid tree) [
    | none ↦ (none, oid_not_found)
    | some n ↦
        if not (is_metric n) || is_empty n.indexes
        then (none, oid_not_found)
        else (some n, oid_instance)
  ]
]
