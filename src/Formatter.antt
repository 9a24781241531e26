-- ===== src/Formatter.antt =====
-- vxsig/signature_formatter.cc: `SignatureFormatter`, which dispatches to the formatters.
use vxsig.Prelude.{List, Option, none, some, ℤ}
use vxsig.Signature.{Bytes, Signature, Result, ok, ◌>>=ᵣ◌}
use vxsig.Signature.Subset.{Algorithms}
use vxsig.Format.{HexPrinter}
use vxsig.ClamAv
use vxsig.Yara

-- `SignatureType` of vxsig/vxsig.proto.
pub data SignatureType : Type 0 where
  invalid raw clam_av yara : SignatureType

-- The two derived classes.
pub data SignatureFormatter : Type 0 where
  clam_av_formatter yara_formatter : SignatureFormatter

-- `Create`: other types stop the process.
unfoldable pub create : SignatureType → Option SignatureFormatter
create clam_av = some clam_av_formatter
create yara = some yara_formatter
create _ = none

module _ (hex : HexPrinter) (to_string : ℤ → Bytes) (flags : Yara.DebugFlags)
    (std : Algorithms) where
  -- `Format`, for a signature that is there: the virtual `DoFormat` fills the data of its engine.
  unfoldable pub format : SignatureFormatter → Signature → Result Signature
  unfolding ClamAv.do_format Yara.do_format
  format clam_av_formatter signature =
      ClamAv.do_format hex std signature.definition signature.raw_signature >>=ᵣ λ text.
      ok (record signature { clam_av_data = text })
  format yara_formatter signature =
      Yara.do_format hex to_string flags std signature.definition signature.raw_signature
      >>=ᵣ λ text. ok (record signature { yara_data = text })

  -- `FormatDatabase`, for a text that is there, which the formatter for YARA clears.
  unfoldable pub format_database : SignatureFormatter → Bytes → List Signature → Result Bytes
  unfolding ClamAv.do_format_database Yara.do_format_database
  format_database clam_av_formatter database signatures =
      ClamAv.do_format_database hex std database signatures
  format_database yara_formatter database signatures =
      Yara.do_format_database hex to_string flags std signatures
