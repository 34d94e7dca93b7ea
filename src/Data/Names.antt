-- ===== src/Data/Names.antt =====
-- tcc/data.c: the names of the types in error messages.
use Prim.Native.String.{String}
use tcng.Data.{DataType}

unfoldable pub type_name : DataType → String
type_name DataType.none = "none"
type_name DataType.unum = "integer"
type_name DataType.ipv4 = "IPv4 address"
type_name DataType.ipv6 = "IPv6 address"
type_name DataType.fnum = "floating-point number"
type_name DataType.string = "string"
type_name DataType.rate = "rate"
type_name DataType.size = "size in bytes"
type_name DataType.prate = "packet rate"
type_name DataType.psize = "size in packets"
type_name DataType.time = "time"
type_name DataType.device = "device"
type_name DataType.qdisc = "queuing discipline"
type_name DataType.class = "class"
type_name DataType.filter = "filter"
type_name DataType.tunnel = "tunnel"
type_name DataType.police = "policer"
type_name DataType.bucket = "bucket"
type_name DataType.list = "list"
type_name DataType.field = "field"
type_name DataType.field_root = "field_root"
type_name DataType.decision = "decision"
type_name DataType.assoc = "structure"
