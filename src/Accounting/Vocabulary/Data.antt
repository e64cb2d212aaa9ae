-- ===== src/Accounting/Vocabulary/Data.antt =====
-- What data and its destinations are called in src/privacy_hud/accounting.py.
use codex_privacy_hud.Prelude.{ℕ, ◌≡◌, refl, nat_eq, if◌then◌else◌, Comparable, key_by}

pub data DataType : Type 0 where
  credential financial health email phone person address ssn account url date hostname path :
      DataType
  ip repo : DataType

abbrev pub data_type_code : DataType → ℕ
data_type_code DataType.credential = 0
data_type_code DataType.financial = 1
data_type_code DataType.health = 2
data_type_code DataType.email = 3
data_type_code DataType.phone = 4
data_type_code DataType.person = 5
data_type_code DataType.address = 6
data_type_code DataType.ssn = 7
data_type_code DataType.account = 8
data_type_code DataType.url = 9
data_type_code DataType.date = 10
data_type_code DataType.hostname = 11
data_type_code DataType.path = 12
data_type_code DataType.ip = 13
data_type_code DataType.repo = 14

abbrev pub data_type_decode : ℕ → DataType
data_type_decode n =
    if nat_eq n 0
    then DataType.credential
    else if nat_eq n 1
    then DataType.financial
    else if nat_eq n 2
    then DataType.health
    else if nat_eq n 3
    then DataType.email
    else if nat_eq n 4
    then DataType.phone
    else if nat_eq n 5
    then DataType.person
    else if nat_eq n 6
    then DataType.address
    else if nat_eq n 7
    then DataType.ssn
    else if nat_eq n 8
    then DataType.account
    else if nat_eq n 9
    then DataType.url
    else if nat_eq n 10
    then DataType.date
    else if nat_eq n 11
    then DataType.hostname
    else if nat_eq n 12
    then DataType.path
    else if nat_eq n 13
    then DataType.ip
    else DataType.repo

pub data_type_back : (a : DataType) → data_type_decode (data_type_code a) ≡ a
data_type_back DataType.credential = refl
data_type_back DataType.financial = refl
data_type_back DataType.health = refl
data_type_back DataType.email = refl
data_type_back DataType.phone = refl
data_type_back DataType.person = refl
data_type_back DataType.address = refl
data_type_back DataType.ssn = refl
data_type_back DataType.account = refl
data_type_back DataType.url = refl
data_type_back DataType.date = refl
data_type_back DataType.hostname = refl
data_type_back DataType.path = refl
data_type_back DataType.ip = refl
data_type_back DataType.repo = refl

instance abbrev pub data_type_key : Comparable DataType
data_type_key = key_by data_type_code data_type_decode data_type_back

pub data Boundary : Type 0 where
  b0 b1 b2 b3 b4 : Boundary

abbrev pub boundary_code : Boundary → ℕ
boundary_code Boundary.b0 = 0
boundary_code Boundary.b1 = 1
boundary_code Boundary.b2 = 2
boundary_code Boundary.b3 = 3
boundary_code Boundary.b4 = 4

abbrev pub boundary_decode : ℕ → Boundary
boundary_decode n =
    if nat_eq n 0
    then Boundary.b0
    else if nat_eq n 1
    then Boundary.b1
    else if nat_eq n 2
    then Boundary.b2
    else if nat_eq n 3
    then Boundary.b3
    else Boundary.b4

pub boundary_back : (a : Boundary) → boundary_decode (boundary_code a) ≡ a
boundary_back Boundary.b0 = refl
boundary_back Boundary.b1 = refl
boundary_back Boundary.b2 = refl
boundary_back Boundary.b3 = refl
boundary_back Boundary.b4 = refl

instance abbrev pub boundary_key : Comparable Boundary
boundary_key = key_by boundary_code boundary_decode boundary_back

pub data DestinationKind : Type 0 where
  local model_context subagent mcp_tool external_net : DestinationKind

abbrev pub destination_kind_code : DestinationKind → ℕ
destination_kind_code DestinationKind.local = 0
destination_kind_code DestinationKind.model_context = 1
destination_kind_code DestinationKind.subagent = 2
destination_kind_code DestinationKind.mcp_tool = 3
destination_kind_code DestinationKind.external_net = 4

abbrev pub destination_kind_decode : ℕ → DestinationKind
destination_kind_decode n =
    if nat_eq n 0
    then DestinationKind.local
    else if nat_eq n 1
    then DestinationKind.model_context
    else if nat_eq n 2
    then DestinationKind.subagent
    else if nat_eq n 3
    then DestinationKind.mcp_tool
    else DestinationKind.external_net

pub destination_kind_back :
    (a : DestinationKind) → destination_kind_decode (destination_kind_code a) ≡ a
destination_kind_back DestinationKind.local = refl
destination_kind_back DestinationKind.model_context = refl
destination_kind_back DestinationKind.subagent = refl
destination_kind_back DestinationKind.mcp_tool = refl
destination_kind_back DestinationKind.external_net = refl

instance abbrev pub destination_kind_key : Comparable DestinationKind
destination_kind_key = key_by destination_kind_code destination_kind_decode destination_kind_back

pub data EventKind : Type 0 where
  detected local_access permitted exposed prevented retention : EventKind

abbrev pub event_kind_code : EventKind → ℕ
event_kind_code EventKind.detected = 0
event_kind_code EventKind.local_access = 1
event_kind_code EventKind.permitted = 2
event_kind_code EventKind.exposed = 3
event_kind_code EventKind.prevented = 4
event_kind_code EventKind.retention = 5

abbrev pub event_kind_decode : ℕ → EventKind
event_kind_decode n =
    if nat_eq n 0
    then EventKind.detected
    else if nat_eq n 1
    then EventKind.local_access
    else if nat_eq n 2
    then EventKind.permitted
    else if nat_eq n 3
    then EventKind.exposed
    else if nat_eq n 4
    then EventKind.prevented
    else EventKind.retention

pub event_kind_back : (a : EventKind) → event_kind_decode (event_kind_code a) ≡ a
event_kind_back EventKind.detected = refl
event_kind_back EventKind.local_access = refl
event_kind_back EventKind.permitted = refl
event_kind_back EventKind.exposed = refl
event_kind_back EventKind.prevented = refl
event_kind_back EventKind.retention = refl

instance abbrev pub event_kind_key : Comparable EventKind
event_kind_key = key_by event_kind_code event_kind_decode event_kind_back

pub data SafeSuffix : Type 0 where
  pem p12 pfx keystore : SafeSuffix

abbrev pub safe_suffix_code : SafeSuffix → ℕ
safe_suffix_code SafeSuffix.pem = 0
safe_suffix_code SafeSuffix.p12 = 1
safe_suffix_code SafeSuffix.pfx = 2
safe_suffix_code SafeSuffix.keystore = 3

abbrev pub safe_suffix_decode : ℕ → SafeSuffix
safe_suffix_decode n =
    if nat_eq n 0
    then SafeSuffix.pem
    else if nat_eq n 1
    then SafeSuffix.p12
    else if nat_eq n 2
    then SafeSuffix.pfx
    else SafeSuffix.keystore

pub safe_suffix_back : (a : SafeSuffix) → safe_suffix_decode (safe_suffix_code a) ≡ a
safe_suffix_back SafeSuffix.pem = refl
safe_suffix_back SafeSuffix.p12 = refl
safe_suffix_back SafeSuffix.pfx = refl
safe_suffix_back SafeSuffix.keystore = refl

instance abbrev pub safe_suffix_key : Comparable SafeSuffix
safe_suffix_key = key_by safe_suffix_code safe_suffix_decode safe_suffix_back

pub data SubjectKind : Type 0 where
  value file : SubjectKind

abbrev pub subject_kind_code : SubjectKind → ℕ
subject_kind_code SubjectKind.value = 0
subject_kind_code SubjectKind.file = 1

abbrev pub subject_kind_decode : ℕ → SubjectKind
subject_kind_decode n = if nat_eq n 0 then SubjectKind.value else SubjectKind.file

pub subject_kind_back : (a : SubjectKind) → subject_kind_decode (subject_kind_code a) ≡ a
subject_kind_back SubjectKind.value = refl
subject_kind_back SubjectKind.file = refl

instance abbrev pub subject_kind_key : Comparable SubjectKind
subject_kind_key = key_by subject_kind_code subject_kind_decode subject_kind_back
