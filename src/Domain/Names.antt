-- ===== src/Domain/Names.antt =====
-- Domain.Names: identifiers and names, from domain/valueobjects/ids.go and the name pattern of the aggregates.
use flexitype.Prelude.{ℕ, Bool, true, false, ◌&&◌, ◌||◌, [], ◌∷◌, leb, ◌==◌, if◌then◌else◌, length}
use flexitype.Bytes.{Bytes, codes}

-- A ULID; only equality of ULIDs matters here. A fresh one is an argument.
abbrev pub Ulid : Type 0
Ulid = ℕ

abbrev pub TenantId : Type 0
TenantId = Bytes

abbrev pub EntityId : Type 0
EntityId = Bytes

-- s == "" for a string.
abbrev pub is_empty : Bytes → Bool
is_empty [] = true
is_empty (c ∷ cs) = false

abbrev pub default_tenant : TenantId
default_tenant = codes "default"

abbrev pub tenant_or_default : TenantId → TenantId
tenant_or_default t = if is_empty t then default_tenant else t

is_name_start : ℕ → Bool
is_name_start c = leb b'a' c && leb c b'z'

is_name_byte : ℕ → Bool
is_name_byte c = leb b'a' c && leb c b'z' || leb b'0' c && leb c b'9' || c == b'_'

all_name_bytes : Bytes → Bool
unfolding is_name_byte
all_name_bytes [] = true
all_name_bytes (c ∷ cs) = is_name_byte c && all_name_bytes cs

-- internalNamePattern: ^[a-z][a-z0-9_]{1,62}$
unfoldable pub is_internal_name : Bytes → Bool
unfolding is_name_start all_name_bytes
is_internal_name [] = false
is_internal_name (c ∷ cs) =
    is_name_start c && leb 1 (length cs) && leb (length cs) 62 && all_name_bytes cs
