-- ===== src/Generator/Netsnmp/Structures.antt =====
-- The C structures that generator/net_snmp.go reads, its tables of types and of access, and `getMibsDir`.
use snmp_exporter.Common.{ℕ, List, [], ◌∷◌, leb, if◌then◌else◌, Option, some, none}
use snmp_exporter.Common.Int.{ℤ, pos, negsuc}
use snmp_exporter.Common.Text.{Bytes, text, join, equal}
use snmp_exporter.Collector.Index.{EnumMap, int_eq}

-- A `char *`, and `C.GoString` of it.
abbrev pub CString : Type 0
CString = Option Bytes

abbrev pub go_string : CString → Bytes
go_string none = []
go_string (some s) = s

-- A `struct tree` without its pointers to children and peers. `enums` are the values with their labels,
-- `indexes` the labels with `isimplied`.
pub record MibObject : Type 0 where
  pub subid : ℕ
  pub modid : ℤ
  pub label : CString
  pub typ : ℤ
  pub access : ℤ
  pub augments : CString
  pub description : CString
  pub hint : CString
  pub tc_index : ℤ
  pub units : CString
  pub enums : List (ℤ × CString)
  pub indexes : List (CString × ℤ)

-- With its `child_list`, which goes on by `next_peer`.
mutual
  pub data StructTree : Type 0 where
    struct_tree : MibObject → Peers → StructTree

  pub data Peers : Type 0 where
    null : Peers
    peer : StructTree → Peers → Peers

-- What the code asks NetSNMP for: `find_module` with the name of the module, `get_tc_descriptor`, and
-- `tclist` with the bounds of its ranges.
pub record NetsnmpLibrary : Type 0 where
  pub find_module : ℤ → Option CString
  pub get_tc_descriptor : ℤ → CString
  pub tc_alloc : ℕ
  pub ranges : ℕ → List (ℤ × ℤ)

unfoldable pub single_value : List (ℤ × ℤ) → ℤ
single_value [] = pos 0
single_value ((low, high) ∷ []) = if int_eq low high then low else pos 0
single_value (r ∷ q ∷ ranges) = pos 0

unfoldable pub get_tc_fixed_size : NetsnmpLibrary → ℤ → ℤ
unfolding single_value
get_tc_fixed_size lib (negsuc n) = pos 0
get_tc_fixed_size lib (pos n) = if leb lib.tc_alloc n then pos 0 else single_value (lib.ranges n)

unfoldable pub netsnmp_type_map : EnumMap
unfolding text
netsnmp_type_map =
    (pos 0, text "OTHER")
    ∷ (pos 1, text "OBJID")
    ∷ (pos 2, text "OCTETSTR")
    ∷ (pos 3, text "INTEGER")
    ∷ (pos 4, text "NETADDR")
    ∷ (pos 5, text "IPADDR")
    ∷ (pos 6, text "COUNTER")
    ∷ (pos 7, text "GAUGE")
    ∷ (pos 8, text "TIMETICKS")
    ∷ (pos 9, text "OPAQUE")
    ∷ (pos 10, text "NULL")
    ∷ (pos 11, text "COUNTER64")
    ∷ (pos 12, text "BITSTRING")
    ∷ (pos 13, text "NSAPADDRESS")
    ∷ (pos 14, text "UINTEGER")
    ∷ (pos 15, text "UNSIGNED32")
    ∷ (pos 16, text "INTEGER32")
    ∷ (pos 20, text "TRAPTYPE")
    ∷ (pos 21, text "NOTIFTYPE")
    ∷ (pos 22, text "OBJGROUP")
    ∷ (pos 23, text "NOTIFGROUP")
    ∷ (pos 24, text "MODID")
    ∷ (pos 25, text "AGENTCAP")
    ∷ (pos 26, text "MODCOMP")
    ∷ (pos 27, text "OBJIDENTITY")
    ∷ []

unfoldable pub netsnmp_access_map : EnumMap
unfolding text
netsnmp_access_map =
    (pos 18, text "ACCESS_READONLY")
    ∷ (pos 19, text "ACCESS_READWRITE")
    ∷ (pos 20, text "ACCESS_WRITEONLY")
    ∷ (pos 21, text "ACCESS_NOACCESS")
    ∷ (pos 67, text "ACCESS_NOTIFY")
    ∷ (pos 48, text "ACCESS_CREATE")
    ∷ []

abbrev pub or_unknown : Option Bytes → Bytes
or_unknown none = text "unknown"
or_unknown (some t) = t

-- `getMibsDir`, over the directory that NetSNMP has by default.
unfoldable pub get_mibs_dir : Bytes → List Bytes → Bytes
get_mibs_dir default [] = join [] b':'
get_mibs_dir default (path ∷ []) = if equal path [] then default else join (path ∷ []) b':'
get_mibs_dir default (path ∷ q ∷ paths) = join (path ∷ q ∷ paths) b':'
