-- ===== src/Tlv/Kind.antt =====
-- ndn-svs/tlv.hpp: the numbers of the types of blocks, and those that the code takes from ndn-cxx.
use ndn_svs.Base.{ℕ}

abbrev pub data_packet : ℕ
data_packet = 6

abbrev pub name : ℕ
name = 7

abbrev pub state_vector : ℕ
state_vector = 201

abbrev pub state_vector_entry : ℕ
state_vector_entry = 202

abbrev pub seq_no_v2 : ℕ
seq_no_v2 = 204

abbrev pub mapping_data : ℕ
mapping_data = 205

abbrev pub mapping_entry : ℕ
mapping_entry = 206

abbrev pub seq_no_entry : ℕ
seq_no_entry = 210

abbrev pub bootstrap_time : ℕ
bootstrap_time = 212

abbrev pub seq_no : ℕ
seq_no = 214

abbrev pub repair_data : ℕ
repair_data = 216

abbrev pub repair_entry : ℕ
repair_entry = 217

abbrev pub lzma_block : ℕ
lzma_block = 211

abbrev pub content : ℕ
content = 21

abbrev pub application_parameters : ℕ
application_parameters = 36
