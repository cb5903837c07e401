-- ===== src/Transaction/AttrUsage.antt =====
-- pkg/core/transaction/attr_usage.go: the usages of attributes.
use neovm.Prelude.{ℕ}

abbrev pub contract_hash : ℕ
contract_hash = 0x00

abbrev pub ecdh02 : ℕ
ecdh02 = 0x02

abbrev pub ecdh03 : ℕ
ecdh03 = 0x03

abbrev pub script : ℕ
script = 0x20

abbrev pub vote : ℕ
vote = 0x30

abbrev pub cert_url : ℕ
cert_url = 0x80

abbrev pub description_url : ℕ
description_url = 0x81

abbrev pub description : ℕ
description = 0x90

abbrev pub hash1 : ℕ
hash1 = 0xa1

abbrev pub hash2 : ℕ
hash2 = 0xa2

abbrev pub hash3 : ℕ
hash3 = 0xa3

abbrev pub hash4 : ℕ
hash4 = 0xa4

abbrev pub hash5 : ℕ
hash5 = 0xa5

abbrev pub hash6 : ℕ
hash6 = 0xa6

abbrev pub hash7 : ℕ
hash7 = 0xa7

abbrev pub hash8 : ℕ
hash8 = 0xa8

abbrev pub hash9 : ℕ
hash9 = 0xa9

abbrev pub hash10 : ℕ
hash10 = 0xaa

abbrev pub hash11 : ℕ
hash11 = 0xab

abbrev pub hash12 : ℕ
hash12 = 0xac

abbrev pub hash13 : ℕ
hash13 = 0xad

abbrev pub hash14 : ℕ
hash14 = 0xae

abbrev pub hash15 : ℕ
hash15 = 0xaf

abbrev pub remark : ℕ
remark = 0xf0

abbrev pub remark1 : ℕ
remark1 = 0xf1

abbrev pub remark2 : ℕ
remark2 = 0xf2

abbrev pub remark3 : ℕ
remark3 = 0xf3

abbrev pub remark4 : ℕ
remark4 = 0xf4

abbrev pub remark5 : ℕ
remark5 = 0xf5

abbrev pub remark6 : ℕ
remark6 = 0xf6

abbrev pub remark7 : ℕ
remark7 = 0xf7

abbrev pub remark8 : ℕ
remark8 = 0xf8

abbrev pub remark9 : ℕ
remark9 = 0xf9

abbrev pub remark10 : ℕ
remark10 = 0xfa

abbrev pub remark11 : ℕ
remark11 = 0xfb

abbrev pub remark12 : ℕ
remark12 = 0xfc

abbrev pub remark13 : ℕ
remark13 = 0xfd

abbrev pub remark14 : ℕ
remark14 = 0xfe

abbrev pub remark15 : ℕ
remark15 = 0xff
