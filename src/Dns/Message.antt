-- ===== src/Dns/Message.antt =====
-- The types of net/dns/parser.go.
use pikonode.Prelude.{ℕ, Bool, false, List, []}
use pikonode.Prelude.Bits.{Bytes}

-- `respOk` and the other codes of `dnsRespCode`, the types and classes in use.
abbrev pub resp_ok : ℕ
resp_ok = 0

abbrev pub resp_format_err : ℕ
resp_format_err = 1

abbrev pub resp_nx_domain : ℕ
resp_nx_domain = 3

abbrev pub op_query : ℕ
op_query = 0

abbrev pub type_a : ℕ
type_a = 1

abbrev pub type_aaaa : ℕ
type_aaaa = 28

abbrev pub class_in : ℕ
class_in = 1

pub record DnsQuestion : Type 0 where
  pub labels : List Bytes
  pub type : ℕ
  pub class : ℕ

pub record DnsRecord : Type 0 where
  pub labels : List Bytes
  pub type : ℕ
  pub class : ℕ
  pub ttl : ℕ
  pub rdata : Bytes

pub record DnsMessage : Type 0 where
  pub id : ℕ
  pub qr : Bool
  pub opcode : ℕ
  pub aa : Bool
  pub tc : Bool
  pub rd : Bool
  pub ra : Bool
  pub resp : ℕ
  pub qdcount : ℕ
  pub ancount : ℕ
  pub nscount : ℕ
  pub arcount : ℕ
  pub questions : List DnsQuestion
  pub answers : List DnsRecord
  pub authority : List DnsRecord
  pub additional : List DnsRecord

-- Go's zero value, from which `parseDNSMessage` starts.
abbrev pub zero_message : DnsMessage
zero_message = record {
  id = 0;
  qr = false;
  opcode = 0;
  aa = false;
  tc = false;
  rd = false;
  ra = false;
  resp = 0;
  qdcount = 0;
  ancount = 0;
  nscount = 0;
  arcount = 0;
  questions = [];
  answers = [];
  authority = [];
  additional = [];
}
