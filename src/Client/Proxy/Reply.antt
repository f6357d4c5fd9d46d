-- ===== src/Client/Proxy/Reply.antt =====
-- `BpDemo::readReply` of RS485/tl/native_client/jni/binderClient.cpp: its request, and the pointer
-- that it returns into the temporary `String8`.
use qf.Prelude.{◌≡◌, ◌≢◌, refl, [], ◌∷◌, ◌++◌, none, some, Bool, true}
use qf.Client.Platform.{Text, Pointer, Strings, Platform, transaction, State, Run, ok}
use qf.Client.Proxy
use qf.Client.Proxy.{read_reply_code, descriptor}
use qf.Client.Proxy.Calls.{ParcelLaws, decode, read_reply, decode-read}

-- The text of a reply: what follows the exception code.
abbrev pub message : (p : Platform) → p.Parcel → p.Text16
message p reply = (p.read_string16 (p.read_exception_code reply).1).0

-- A `String8` is the only owner of its buffer: its destructor gives the storage back, unless the
-- text is empty (the buffer of the empty text is shared and stays).
pub record OwnsBuffer (p : Platform) : Type 0 where
  pub text8 : p.Text16 → Text
  pub released :
      (msg : p.Text16) (m : Strings)
      → text8 msg ≢ []
      → p.delete_string8 (p.new_string8 msg m).0 (p.new_string8 msg m).1 (p.new_string8 msg m).0
        ≡ none

-- The buffer of the empty text belongs to the library, which shares it: a `String8` of it gives one
-- reference back, and the buffer stays.
pub record SharesEmpty (p : Platform) : Type 0 where
  pub text8 : p.Text16 → Text
  pub stays :
      (msg : p.Text16) (m : Strings)
      → text8 msg ≡ []
      → p.delete_string8 (p.new_string8 msg m).0 (p.new_string8 msg m).1 (p.new_string8 msg m).0
        ≡ some []

-- A run that makes one transaction for `token` and returns the place of its temporary.
module _ (p : Platform) (laws : ParcelLaws p) (accepts : p.Text16 → Bool) (remote : p.Binder) where
  pub record Reads (tkn : p.Text16) (s : State p) (result : Run p Pointer) : Type 0 where
    pub request : p.Parcel
    pub reads_back :
        decode p accepts read_reply_code (laws.contents request) ≡ some (read_reply tkn)
    pub after : State p
    pub served : after.service ≡ (p.transact remote read_reply_code request s.service).1
    pub traced :
        after.trace
        ≡ s.trace
          ++ transaction read_reply_code request
              (p.transact remote read_reply_code request s.service).0
            ∷ []
    pub place : Pointer
    pub returns : result ≡ ok place after

module _ (p : Platform) (laws : ParcelLaws p) (accepts : p.Text16 → Bool)
    (ours : accepts (descriptor p) ≡ true) (remote : p.Binder) (s : State p) (tkn : Text) where
  -- With a service that accepts the client's token, `readReply` makes one transaction, whose
  -- request reads back as that call with the same token.
  pub read_reply-Reads :
      Reads p laws accepts remote (p.string16 tkn) s (Proxy.read_reply p remote tkn s)
  unfolding Proxy.read_reply
  read_reply-Reads = record {
    request = _;
    reads_back = decode-read p laws accepts ours (p.string16 tkn);
    after = _;
    served = refl;
    traced = refl;
    place = _;
    returns = refl;
  }

module _ (p : Platform) (remote : p.Binder) (s : State p) (tkn : Text) where
  abbrev read_request : p.Parcel
  read_request =
      p.write_string16 (p.write_interface_token p.new_parcel (descriptor p)) (p.string16 tkn)

  abbrev pub reply_of : p.Parcel
  reply_of = (p.transact remote read_reply_code read_request s.service).0

  -- Where a `String8` owns its buffer, the pointer that `readReply` returns for a reply that is
  -- not empty leads to storage that is no longer allocated.
  pub read_reply-dangling :
      (owns : OwnsBuffer p)
      → owns.text8 (message p reply_of) ≢ []
      → (at : Pointer) × (s' : State p) × (Proxy.read_reply p remote tkn s ≡ ok at s')
        × (s'.strings at ≡ none)
  unfolding Proxy.read_reply
  read_reply-dangling owns text = (_, _, refl, owns.released (message p reply_of) s.strings text)
