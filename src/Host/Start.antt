-- ===== src/Host/Start.antt =====
-- The `main` of A3/FileClient.cc, which A5/Chatroom/src/Client.cc repeats, around its console.
use aip_pkussm.Prelude.{ℕ, ◌%◌, ◌^◌, ◌&&◌, Bool, List, [], ◌∷◌, CString, ℤ, to_size, if◌then◌else◌}

-- How `main` goes: the usage is printed, `exit (1)`, or the console has run.
pub data Started {ℓ} (A : Type ℓ) : Type ℓ where
  usage failed : Started A
  ran : A → Started A

-- `htons (atoi (argv[2]))`, with the order of its bytes left out.
abbrev pub port_of : (CString → ℤ) → CString → ℕ
port_of atoi value = to_size (atoi value) % 2 ^ 16

-- The arguments behind `argv[0]`; whether the socket can be made, and whether an address and a port
-- can be connected to. What `inet_pton` returns is not looked at.
unfoldable pub start_client {ℓ} :
    {A : Type ℓ} → (CString → ℤ) → Bool → (CString → ℕ → Bool) → List CString → A → Started A
start_client atoi socket connect (address ∷ port ∷ []) console =
    if socket && connect address (port_of atoi port) then ran console else failed
start_client atoi socket connect args console = usage
