-- ===== src/SpliceInfo.antt =====
-- The data of packages/vinyl/src/ad/scte35/SpliceInfoSection.ts: sections, commands and descriptors.
use vinyl.Common.{ℕ, Bool, Option, List}

pub record BreakDuration : Type 0 where
  pub auto_return : Bool
  pub duration : ℕ

-- `SpliceInsertCommand`
pub record SpliceInsert : Type 0 where
  pub splice_event_id : ℕ
  pub cancel : Bool
  pub out_of_network : Bool
  pub splice_immediate : Bool
  pub splice_time : Option ℕ
  pub break_duration : Option BreakDuration
  pub unique_program_id : ℕ
  pub avail_num : ℕ
  pub avails_expected : ℕ

pub data SpliceCommand : Type 0 where
  splice_null : SpliceCommand
  splice_insert : SpliceInsert → SpliceCommand
  time_signal : Option ℕ → SpliceCommand
  unknown_command : ℕ → SpliceCommand

-- `SegmentationDescriptor`
pub record Segmentation : Type 0 where
  pub segmentation_event_id : ℕ
  pub cancel : Bool
  pub segmentation_duration : Option ℕ
  pub upid_type : ℕ
  pub upid : List ℕ
  pub segmentation_type_id : ℕ
  pub segment_num : ℕ
  pub segments_expected : ℕ

pub data SpliceDescriptor : Type 0 where
  segmentation : Segmentation → SpliceDescriptor
  unknown_descriptor : ℕ → ℕ → SpliceDescriptor

pub record SpliceInfoSection : Type 0 where
  pub pts_adjustment : ℕ
  pub tier : ℕ
  pub encrypted : Bool
  pub command : SpliceCommand
  pub descriptors : List SpliceDescriptor
