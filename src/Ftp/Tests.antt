-- ===== src/Ftp/Tests.antt =====
-- A layout of the message struct of A3 and a file system, for the examples.
mod Examples
mod Fetched
use aip_pkussm.Prelude.{
  ℕ, zero, suc, ◌+◌, ◌%◌, ◌<◌, ◌≡◌, refl, none, some, List, [], ◌∷◌, ◌++◌, length, take, drop,
  replicate, map, CString, codes, ℤ, pos, negsuc, arith, str_eq, if◌then◌else◌, take-take,
  take-append_left, length-take, length-append, ◌∙◌, sym, ap, append-nil,
}
use aip_pkussm.Net.{ok, fault}
use aip_pkussm.Net.Loopback.{Wires, loopback, loopback-Delivers, loopback-Feeds, loopback-Link, fed}
use aip_pkussm.Transfer.{Buffer, send_data}
use aip_pkussm.Transfer.Send.{wire}
use aip_pkussm.Transfer.Received.{received, wire_rest}
use aip_pkussm.Host.{Disk, Host, minus_one}
use aip_pkussm.Ftp.{Command, put, get, ls, cd, error, quit, connect, Message, Layout, IsSendable}
use aip_pkussm.Ftp.Handlers.{answer_of, open_error}
use aip_pkussm.Ftp.Server.{number, registered, handle_msg}
use aip_pkussm.Ftp.Client.{get_request, put_request, comm_get}
use aip_pkussm.Ftp.Session.{get_served, get_missing, get_session, get_missing_crashes, put_stored}

decode : ℕ → Command
decode zero = put
decode (suc zero) = get
decode (suc (suc zero)) = ls
decode (suc (suc (suc zero))) = cd
decode (suc (suc (suc (suc zero)))) = error
decode (suc (suc (suc (suc (suc zero))))) = quit
decode _ = connect

decode-number : (c : Command) → decode (number c) ≡ c
unfolding decode
decode-number put = refl
decode-number _ = refl

abbrev padded : CString → List ℕ
padded name = take 32 (name ++ replicate 32 0)

sized : ℤ → List ℕ → List ℕ
sized (pos n) rest = 0 ∷ n ∷ rest
sized (negsuc n) rest = 1 ∷ n ∷ rest

unsized : ℕ → ℕ → ℤ
unsized zero n = pos n
unsized (suc _) n = negsuc n

pub store_message : Message → List ℕ
unfolding sized
store_message m = number m.command ∷ length m.fname ∷ sized m.data_size (padded m.fname)

pub load_message : List ℕ → Message
unfolding decode unsized
load_message (c ∷ l ∷ sign ∷ n ∷ name) = record {
  command = decode c;
  fname = take l name;
  data_size = unsized sign n;
}
load_message _ = open_error

length-padded : (name : CString) → length (padded name) ≡ 32
length-padded name =
    omega (arith, length-take 32 (name ++ replicate 32 0), length-append name (replicate 32 0))

take-padded : (name : CString) → length name < 32 → take (length name) (padded name) ≡ name
take-padded name h =
    take-take (length name) 32 (name ++ replicate 32 0) (omega arith)
    ∙ take-append_left (length name) name (replicate 32 0) refl

length-sized : (z : ℤ) (rest : List ℕ) → length (sized z rest) ≡ length rest + 2
unfolding sized
length-sized (pos n) rest = omega arith
length-sized (negsuc n) rest = omega arith

load-sized :
    (c : Command) (name : CString) (z : ℤ)
    → length name < 32
    → load_message (number c ∷ length name ∷ sized z (padded name))
      ≡ record { command = c; fname = name; data_size = z }
unfolding load_message sized
load-sized c name (pos n) h = rw (decode-number, take-padded name h) refl
load-sized c name (negsuc n) h = rw (decode-number, take-padded name h) refl

pub length-store_message : (m : Message) → length (store_message m) ≡ 36
unfolding store_message
length-store_message m =
    omega (arith, length-sized m.data_size (padded m.fname), length-padded m.fname)

pub load-store_message : (m : Message) → IsSendable m → load_message (store_message m) ≡ m
unfolding store_message
load-store_message m h = load-sized m.command m.fname m.data_size h.0

abbrev pub layout : Layout
layout = record {
  message_len = 36;
  bytes = store_message;
  parse = load_message;
  nonempty = omega arith;
  length-bytes = length-store_message;
  parse-bytes = load-store_message;
}

-- A disk with one readable file; every file but one without a name can be created. What is written
-- stands in `saved`.
pub record Files : Type 0 where
  pub name : CString
  pub content : List ℕ
  pub saved : List (CString × Buffer)

abbrev pub disk : Disk
disk = record {
  Files = Files;
  open_read = λ f name. if str_eq name f.name then some f.content else none;
  create = λ f name. elim name [ [] ↦ none | c ∷ rest ↦ some f ];
  write = λ f name buff. record f { saved = (name, buff) ∷ f.saved };
}

abbrev pub a_name : CString
a_name = codes "song"

abbrev pub no_files : Files
no_files = record { name = codes "other"; content = []; saved = [] }

abbrev pub server_of : List ℕ → Host loopback disk
server_of content = record {
  link = fed [];
  files = record { name = a_name; content = content; saved = [] };
}

abbrev pub client_of : List ℕ → Host loopback disk
client_of input = record { link = fed input; files = no_files }

abbrev pub one_block : List ℕ
one_block = replicate 512 7

abbrev pub longer : List ℕ
longer = replicate 600 7
